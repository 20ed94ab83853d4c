-- ===== src/Path/Resolve.antt =====
-- `vfs_path_resolve`: its stack against a description of the resolved names, and the laws that
-- the callers rely on.
use mathlib.Core.Path.{subst}
use ftpserv_u.Prelude.{
  ◌≡◌, refl, ap, sym, ◌∙◌, false, List, [], ◌∷◌, ◌++◌, arith, ◌==◌, done, some, Out-cases, inl, inr,
  All, append-nil,
}
use ftpserv_u.Memory.{Bytes, same_string}
use ftpserv_u.Path.{
  VfsPath, dot, dot_dot, resolve_step, push_all, pop_all, path_resolve, detach_last, new_path,
  pathent_parse,
}

-- A name that is a directory's own, neither "." nor "..".
abbrev pub IsPlain : Bytes → Type 0
IsPlain name = (same_string name dot_dot ≡ false) × (same_string name dot ≡ false)

-- A path with no indirect link.
abbrev pub IsResolved : VfsPath → Type 0
IsResolved p = All IsPlain p.entities

-- The names after `..` and `.` have been carried out, the deepest last.
unfoldable pub resolve_names : List Bytes → List Bytes
resolve_names names = pop_all (push_all [] names) []

push_all-append :
    (stack xs ys : List Bytes) → push_all stack (xs ++ ys) ≡ push_all (push_all stack xs) ys
unfolding push_all
push_all-append stack [] ys = refl
push_all-append stack (x ∷ xs) ys = push_all-append (resolve_step stack x) xs ys

pop_all-append :
    (stack below out : List Bytes)
    → pop_all (stack ++ below) out ≡ pop_all below (pop_all stack out)
unfolding pop_all
pop_all-append [] below out = refl
pop_all-append (x ∷ stack) below out = pop_all-append stack below (x ∷ out)

resolve_step-IsPlain :
    (stack : List Bytes) (name : Bytes) → All IsPlain stack → All IsPlain (resolve_step stack name)
unfolding resolve_step
resolve_step-IsPlain [] name h = ground arith
resolve_step-IsPlain (top ∷ below) name h = ground arith

push_all-IsPlain : (stack xs : List Bytes) → All IsPlain stack → All IsPlain (push_all stack xs)
unfolding push_all
push_all-IsPlain stack [] h = h
push_all-IsPlain stack (x ∷ xs) h =
    push_all-IsPlain (resolve_step stack x) xs (resolve_step-IsPlain stack x h)

pop_all-IsPlain :
    (stack out : List Bytes) → All IsPlain stack → All IsPlain out → All IsPlain (pop_all stack out)
unfolding pop_all
pop_all-IsPlain [] out h k = k
pop_all-IsPlain (x ∷ stack) out h k = pop_all-IsPlain stack (x ∷ out) h.1 (h.0, k)

resolve_step-push :
    (stack : List Bytes) (name : Bytes) → IsPlain name → resolve_step stack name ≡ name ∷ stack
unfolding resolve_step
resolve_step-push stack name h = ground arith

-- On plain names the stack is only pushed to.
pop_all-push_all :
    (stack out xs : List Bytes)
    → All IsPlain xs
    → pop_all (push_all stack xs) out ≡ pop_all stack (xs ++ out)
unfolding push_all pop_all
pop_all-push_all stack out [] h = refl
pop_all-push_all stack out (x ∷ xs) h =
    ap (λ (s : List Bytes). pop_all (push_all s xs) out) (resolve_step-push stack x h.0)
    ∙ pop_all-push_all (x ∷ stack) out xs h.1

-- Pushing what was popped gives the stack back.
push_all-pop_all :
    (stack out : List Bytes)
    → All IsPlain stack
    → push_all [] (pop_all stack out) ≡ push_all stack out
unfolding pop_all
push_all-pop_all [] out h = refl
push_all-pop_all (x ∷ stack) out h =
    push_all-pop_all stack (x ∷ out) h.1
    ∙ unfold push_all in ap (λ (s : List Bytes). push_all s out) (resolve_step-push stack x h.0)

-- Paths resolve to names that are neither "." nor "..".
pub resolve_names-IsPlain : (names : List Bytes) → All IsPlain (resolve_names names)
unfolding resolve_names
resolve_names-IsPlain names =
    pop_all-IsPlain (push_all [] names) [] (push_all-IsPlain [] names tt) tt

pub resolve_names-id : (names : List Bytes) → All IsPlain names → resolve_names names ≡ names
unfolding resolve_names
resolve_names-id names h = pop_all-push_all [] [] names h ∙ unfold pop_all in append-nil names

-- Resolution is compositional: a path may be resolved before more names are hung behind it.
pub resolve_names-append :
    (xs ys : List Bytes) → resolve_names (xs ++ ys) ≡ resolve_names (resolve_names xs ++ ys)
unfolding resolve_names
resolve_names-append xs ys =
    ap (λ (s : List Bytes). pop_all s [])
      (push_all-append [] xs ys
        ∙ sym (
            ap (λ (s : List Bytes). push_all s ys)
              (push_all-pop_all (push_all [] xs) [] (push_all-IsPlain [] xs tt)
                ∙ unfold push_all in refl))
        ∙ sym (push_all-append [] (pop_all (push_all [] xs) []) ys))

dot_dot-pops :
    (stack : List Bytes) (name : Bytes) (names : List Bytes)
    → All IsPlain (name ∷ names)
    → pop_all (push_all stack ((name ∷ names) ++ (dot_dot ∷ []))) []
      ≡ pop_all stack (detach_last (name ∷ names))
unfolding push_all pop_all resolve_step detach_last
dot_dot-pops stack name [] h = rw (h.0.0, h.0.1)
dot_dot-pops stack name (next ∷ names) h =
    ap (λ (s : List Bytes). pop_all (push_all s ((next ∷ names) ++ (dot_dot ∷ []))) [])
      (resolve_step-push stack name h.0)
    ∙ dot_dot-pops (name ∷ stack) next names h.1

-- ".." behind resolved names removes the last one, and at the root nothing.
pub resolve_names-dot_dot :
    (names : List Bytes)
    → All IsPlain names
    → resolve_names (names ++ (dot_dot ∷ [])) ≡ detach_last names
unfolding resolve_names
resolve_names-dot_dot [] h = unfold push_all pop_all resolve_step detach_last in refl
resolve_names-dot_dot (name ∷ names) h = dot_dot-pops [] name names h ∙ unfold pop_all in refl

pub path_resolve-resolve_names :
    (p : VfsPath) → path_resolve p ≡ record p { entities = resolve_names p.entities }
unfolding path_resolve resolve_names
path_resolve-resolve_names p = refl

pub path_resolve-plain : (p : VfsPath) → IsResolved p → path_resolve p ≡ p
path_resolve-plain p h = ground (arith, path_resolve-resolve_names p, resolve_names-id p.entities h)

pub path_resolve-IsResolved : (p : VfsPath) → IsResolved (path_resolve p)
unfolding path_resolve
path_resolve-IsResolved p = unfold resolve_names in resolve_names-IsPlain p.entities

-- ".." at the front of the names is dropped, as at the root.
pub resolve_names-dot_dot_first :
    (names : List Bytes) → resolve_names (dot_dot ∷ names) ≡ resolve_names names
unfolding resolve_names push_all resolve_step
resolve_names-dot_dot_first names = refl

-- Every path made from text is resolved.
pub new_path-IsResolved :
    (args : Bytes) {p : VfsPath} → new_path args ≡ done (some p) → IsResolved p
unfolding new_path
new_path-IsResolved [] e = absurd (ground arith)
new_path-IsResolved (c ∷ cs) {p} e = elim (Out-cases (pathent_parse (c ∷ cs))) [
  | inl f ↦ absurd (ground arith)
  | inr (names, f) ↦
      let q : VfsPath = record { entities = names; absolute = c == b'/' } in
      let is : path_resolve q ≡ p = ground arith in subst IsResolved is (path_resolve-IsResolved q)
]
