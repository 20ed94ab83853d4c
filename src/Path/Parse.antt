-- ===== src/Path/Parse.antt =====
-- `vfs_pathent_parse` on well-formed text, and on text that it refuses.
use ftpserv_u.Prelude.{
  ℕ, ◌≡◌, ◌≢◌, refl, ap, sym, ◌∙◌, true, false, ◌||◌, List, [], ◌∷◌, ◌++◌, some, arith, done, ◌==◌,
  All, All-append, append_assoc, append-nil,
}
use ftpserv_u.Memory.{Bytes, c_string, is_graph}
use ftpserv_u.Path.{dot_dot, skip_separator, scan_entities, pathent_parse}

-- A byte that a name may hold: printable or a space, and no separator.
abbrev pub IsNameByte : ℕ → Type 0
IsNameByte c = ((is_graph c || c == b' ') ≡ true) × ((c == b'/') ≡ false)

abbrev pub IsName : Bytes → Type 0
IsName n = All IsNameByte n × (n ≢ [])

pub name_byte_ne_zero : (c : ℕ) → IsNameByte c → (c == 0) ≡ false
unfolding is_graph
name_byte_ne_zero c h = ground arith

c_string-name : (n : Bytes) → All IsNameByte n → c_string n ≡ n
unfolding c_string
c_string-name [] h = refl
c_string-name (c ∷ n) h = ground (arith, name_byte_ne_zero c h.0, c_string-name n h.1)

-- The scan moves over name bytes, and gathers them.
scan-name :
    (n rest entity : Bytes) (found : List Bytes)
    → All IsNameByte n
    → scan_entities (n ++ rest) false entity found ≡ scan_entities rest false (entity ++ n) found
scan-name [] rest entity found h =
    ap (λ (e : Bytes). scan_entities rest false e found) (sym (append-nil entity))
scan-name (c ∷ n) rest entity found h =
    one
    ∙ scan-name n rest (entity ++ (c ∷ [])) found h.1
    ∙ ap (λ (e : Bytes). scan_entities rest false e found) (append_assoc entity (c ∷ []) n)
  where
    one :
        scan_entities (c ∷ (n ++ rest)) false entity found
        ≡ scan_entities (n ++ rest) false (entity ++ (c ∷ [])) found
    one = unfold scan_entities in ground (arith, name_byte_ne_zero c h.0)

-- The text of names behind one another, with one separator between two.
abbrev pub joined : List Bytes → Bytes
joined [] = []
joined (n ∷ []) = n
joined (n ∷ m ∷ names) = n ++ (b'/' ∷ joined (m ∷ names))

pub joined-cons :
    (x : ℕ) (m : Bytes) (names : List Bytes) → joined ((x ∷ m) ∷ names) ≡ x ∷ joined (m ∷ names)
joined-cons x m [] = refl
joined-cons x m (p ∷ names) = refl

scan-nul :
    (entity stale : Bytes) (found : List Bytes)
    → All IsNameByte entity
    → entity ≢ []
    → scan_entities (0 ∷ stale) false entity found ≡ done (some (found ++ (entity ∷ [])))
unfolding scan_entities
scan-nul [] stale found h ne = absurd (ne refl)
scan-nul (c ∷ entity) stale found h ne = ground (arith, c_string-name (c ∷ entity) h)

-- A separator ends a name, and the byte behind it starts the next one.
scan-separator :
    (x : ℕ) (rest entity : Bytes) (found : List Bytes)
    → All IsNameByte entity
    → IsNameByte x
    → scan_entities (b'/' ∷ x ∷ rest) false entity found
      ≡ scan_entities rest false (x ∷ []) (found ++ (entity ∷ []))
unfolding scan_entities
scan-separator x rest entity found h hx = ground (arith, c_string-name entity h)

scan-joined :
    (n : Bytes) (names : List Bytes) (entity stale : Bytes) (found : List Bytes)
    → All IsNameByte entity
    → (entity ++ n) ≢ []
    → All IsNameByte n
    → All IsName names
    → scan_entities (joined (n ∷ names) ++ (0 ∷ stale)) false entity found
      ≡ done (some (found ++ ((entity ++ n) ∷ names)))
scan-joined n [] entity stale found he ne h hs =
    scan-name n (0 ∷ stale) entity found h
    ∙ scan-nul (entity ++ n) stale found (All-append IsNameByte entity n he h) ne
scan-joined n ([] ∷ names) entity stale found he ne h hs = absurd (hs.0.1 refl)
scan-joined n ((x ∷ m) ∷ names) entity stale found he ne h ((hx, _), hs) =
    ap (λ (t : Bytes). scan_entities t false entity found)
      (append_assoc n (b'/' ∷ joined ((x ∷ m) ∷ names)) (0 ∷ stale))
    ∙ scan-name n (b'/' ∷ (joined ((x ∷ m) ∷ names) ++ (0 ∷ stale))) entity found h
    ∙ ap (λ (t : Bytes). scan_entities (b'/' ∷ (t ++ (0 ∷ stale))) false (entity ++ n) found)
        (joined-cons x m names)
    ∙ scan-separator x (joined (m ∷ names) ++ (0 ∷ stale)) (entity ++ n) found
        (All-append IsNameByte entity n he h) hx.0
    ∙ scan-joined m names (x ∷ []) stale (found ++ ((entity ++ n) ∷ [])) (hx.0, tt) (λ e. cc) hx.1
        hs
    ∙ ap (λ l. done (some l)) (append_assoc found ((entity ++ n) ∷ []) ((x ∷ m) ∷ names))

skip_separator-append :
    (separators : Bytes) (c : ℕ) (rest : Bytes)
    → All (λ s. s ≡ b'/') separators
    → (c == b'/') ≡ false
    → skip_separator (separators ++ (c ∷ rest)) ≡ done (c ∷ rest)
unfolding skip_separator
skip_separator-append [] c rest h e = ground arith
skip_separator-append (s ∷ separators) c rest h e =
    ground (arith, skip_separator-append separators c rest h.1 e)

pathent_parse-found :
    {mem start : Bytes} {names : List Bytes} (c : ℕ) (cs : Bytes)
    → mem ≡ c ∷ cs
    → (c == 0) ≡ false
    → skip_separator mem ≡ done start
    → scan_entities start false [] [] ≡ done (some names)
    → pathent_parse mem ≡ done names
unfolding pathent_parse
pathent_parse-found c cs m z e f = ground arith

-- A path text of well-formed names, behind separators or none, parses to those names, whatever
-- memory holds behind its NUL.
pub pathent_parse-joined :
    (separators n : Bytes) (names : List Bytes) (stale : Bytes)
    → All (λ c. c ≡ b'/') separators
    → All IsName (n ∷ names)
    → pathent_parse (separators ++ (joined (n ∷ names) ++ (0 ∷ stale))) ≡ done (n ∷ names)
pathent_parse-joined separators [] names stale s h = absurd (h.0.1 refl)
pathent_parse-joined separators (c ∷ n) names stale s h =
    rw (joined-cons c n names) (start separators s)
  where
    rest : Bytes
    rest = joined (n ∷ names) ++ (0 ∷ stale)

    scanned : scan_entities (c ∷ rest) false [] [] ≡ done (some ((c ∷ n) ∷ names))
    scanned =
        ap (λ (t : Bytes). scan_entities (t ++ (0 ∷ stale)) false [] [])
          (sym (joined-cons c n names))
        ∙ scan-joined (c ∷ n) names [] stale [] tt (λ e. cc) h.0.0 h.1

    start :
        (seps : Bytes)
        → All (λ s. s ≡ b'/') seps
        → pathent_parse (seps ++ (c ∷ rest)) ≡ done ((c ∷ n) ∷ names)
    start [] k =
        pathent_parse-found c rest refl (name_byte_ne_zero c h.0.0.0)
          (skip_separator-append [] c rest tt h.0.0.0.1) scanned
    start (x ∷ seps) k =
        pathent_parse-found x (seps ++ (c ∷ rest)) refl (ground arith)
          (skip_separator-append (x ∷ seps) c rest k h.0.0.0.1) scanned

pub dot_dot-IsName : IsName dot_dot
unfolding is_graph
dot_dot-IsName = (((refl, refl), ((refl, refl), tt)), λ e. cc)
