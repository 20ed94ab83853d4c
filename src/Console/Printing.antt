-- ===== src/Console/Printing.antt =====
-- What `console_printf` does to the rows of the console.
use mathlib.Core.Path.{ap₂}
use ftpserv_u.Prelude.{
  ℕ, suc, ◌+◌, ◌≤◌, ◌<◌, ◌≡◌, ◌≢◌, refl, ap, ◌∙◌, Bool, Option, none, some, List, [], ◌∷◌, ◌++◌,
  done, arith, ltb, ◌==◌, if◌then◌else◌, Bool-cases, ◌&&◌, inl, inr, length, length-append, drop,
}
use ftpserv_u.Memory.{Bytes}
use ftpserv_u.Console.{Console, Heap, write, clip, put_line}
use ftpserv_u.Console.Owned.{
  refs, live, IsOwned, view, refs-append, view-append, view-drop, view-frame, text_of, freed,
  live-freed, live-write, live-if, live_one, first, refs-first, shift_rows_lem,
}

write-same : (heap : Heap) (p : ℕ) (v : Option Bytes) → write heap p v p ≡ v
write-same heap p v = ground arith

write-other : (heap : Heap) {p a : ℕ} (v : Option Bytes) → a ≢ p → write heap p v a ≡ heap a
write-other heap {p} {a} v h = ground arith

freed-other :
    (heap : Heap) (row : Option ℕ) (a : ℕ) → refs a (row ∷ []) ≡ 0 → freed heap row a ≡ heap a
freed-other heap none a h = refl
freed-other heap (some p) a h = ground arith

rotated :
    {n : ℕ} (x : Option ℕ) (rows : List (Option ℕ))
    → length rows ≡ suc n
    → length (drop 1 rows ++ (x ∷ [])) ≡ suc n
rotated x [] h = absurd (omega arith)
rotated x (y ∷ rows) h = length-append rows (x ∷ []) ∙ omega (arith, h)

pub live-none : (x : Option Bytes) → live x ≡ 0 → x ≡ none
live-none none h = refl
live-none (some text) h = absurd (omega arith)

-- What a line does to the memory and the rows, where `tv` and `pad` are the rows before it.
module _ (c : Console) (o : IsOwned c) (formatted : Bytes) (strdup_ok : Bool) where
  abbrev p : ℕ
  p = c.next_address

  line : Bytes
  line = clip formatted

  tv_row : Option ℕ
  tv_row = if strdup_ok then some (p + 1) else none

  shifted : Heap
  shifted =
      freed (freed (write c.heap p (some formatted)) (first c.tv_console)) (first c.pad_console)

  written : Heap
  written =
      let clipped = write shifted p (some line) in
      if strdup_ok then write clipped (p + 1) (some line) else clipped

  after : Console
  after = record c {
    heap = written;
    next_address = p + 2;
    tv_console = drop 1 c.tv_console ++ (tv_row ∷ []);
    pad_console = drop 1 c.pad_console ++ (some p ∷ []);
  }

  tv_live : (a : ℕ) → refs a c.tv_console ≤ live (write c.heap p (some formatted) a)
  tv_live a = ground (arith, o.owners a, live-write c.heap p formatted a, live_one (c.heap a))

  pad_live :
      (a : ℕ)
      → refs a c.pad_console ≤ live (freed (write c.heap p (some formatted)) (first c.tv_console) a)
  pad_live a =
      let all = live-write c.heap p formatted a in
      let one = live_one (c.heap a) in
      let firsts = refs-first a c.tv_console in
      let less : refs a (first c.tv_console ∷ []) ≤ live (write c.heap p (some formatted) a) =
        omega (arith, tv_live a) in
      let rest = live-freed (write c.heap p (some formatted)) (first c.tv_console) a less in
      ground (arith, o.owners a)

  put_line-after : put_line formatted strdup_ok c ≡ done after
  unfolding put_line after written shifted tv_row line
  put_line-after =
      let (tv, e, tv_last) =
        shift_rows_lem (write c.heap p (some formatted)) 26 c.tv_console o.tv_size tv_live in
      let (pad, f, pad_last) =
        shift_rows_lem (freed (write c.heap p (some formatted)) (first c.tv_console)) 17
          c.pad_console o.pad_size pad_live in
      rw e (rw f (rw (tv_last tv_row, pad_last (some p)) refl))

  -- Any block in the end is one of before that no first row owned, or one of the new ones.
  live-shifted :
      (a : ℕ)
      → live (shifted a) + refs a (first c.tv_console ∷ []) + refs a (first c.pad_console ∷ [])
        ≡ (if a == p then 1 else live (c.heap a))
  unfolding shifted
  live-shifted a =
      let heap = write c.heap p (some formatted) in
      let tv = refs-first a c.tv_console in
      let pad = refs-first a c.pad_console in
      let tv_less : refs a (first c.tv_console ∷ []) ≤ live (heap a) = omega (arith, tv_live a) in
      let pad_less : refs a (first c.pad_console ∷ []) ≤ live (freed heap (first c.tv_console) a) =
        omega (arith, pad_live a) in
      omega (
        arith,
        live-freed heap (first c.tv_console) a tv_less,
        live-freed (freed heap (first c.tv_console)) (first c.pad_console) a pad_less,
        live-write c.heap p formatted a,
      )

  tv_row-refs :
      (a : ℕ) → refs a (tv_row ∷ []) ≡ (if strdup_ok then (if a == p + 1 then 1 else 0) else 0)
  unfolding tv_row
  tv_row-refs a = elim (Bool-cases strdup_ok) [ inl e ↦ rw e (omega arith) | inr e ↦ rw e refl ]

  written_lem :
      (a : ℕ)
      → written a
        ≡ (if strdup_ok && a == p + 1 then some line else if a == p then some line else shifted a)
  unfolding written
  written_lem a = elim (Bool-cases strdup_ok) [
    | inl e ↦ rw e (elim (Bool-cases (a == p + 1)) [ inl f ↦ rw f refl | inr f ↦ rw f refl ])
    | inr e ↦ rw e refl
  ]

  live-written :
      (a : ℕ)
      → live (written a)
        ≡ (if strdup_ok && a == p + 1 then 1 else if a == p then 1 else live (shifted a))
  live-written a =
      ap live (written_lem a)
      ∙ live-if (strdup_ok && a == p + 1) (some line) (if a == p then some line else shifted a)
      ∙ ap (λ (n : ℕ). if strdup_ok && a == p + 1 then 1 else n)
          (live-if (a == p) (some line) (shifted a))

  later : (a : ℕ) → (if ltb a p then 0 else live (c.heap a)) ≡ 0
  later a = elim (Bool-cases (ltb a p)) [
    | inl e ↦ rw e refl
    | inr e ↦ rw (e, o.fresh a (ground arith)) refl
  ]

  owners-after : (a : ℕ) → refs a after.tv_console + refs a after.pad_console ≡ live (after.heap a)
  unfolding after
  owners-after a = ground (
    arith,
    live-shifted a,
    o.owners a,
    later a,
    live-written a,
    refs-first a c.tv_console,
    refs-first a c.pad_console,
    refs-append a (drop 1 c.tv_console) (tv_row ∷ []),
    refs-append a (drop 1 c.pad_console) (some p ∷ []),
    tv_row-refs a,
  )

  fresh_after : (a : ℕ) → after.next_address ≤ a → after.heap a ≡ none
  unfolding after
  fresh_after a h =
      live-none (after.heap a) (ground (arith, live-shifted a, later a, live-written a))

  -- A block that a row past the first owns is left alone.
  written-kept :
      (a : ℕ)
      → 0 < refs a (drop 1 c.tv_console) + refs a (drop 1 c.pad_console)
      → after.heap a ≡ c.heap a
  unfolding after shifted
  written-kept a h =
      let heap = write c.heap p (some formatted) in
      let tv = refs-first a c.tv_console in
      let pad = refs-first a c.pad_console in
      let one = live_one (c.heap a) in
      let below : a < p = ground (arith, o.owners a, later a) in
      let tv_other : refs a (first c.tv_console ∷ []) ≡ 0 = omega (arith, o.owners a) in
      let pad_other : refs a (first c.pad_console ∷ []) ≡ 0 = omega (arith, o.owners a) in
      let same : written a ≡ shifted a = ground (arith, written_lem a) in
      same
      ∙ freed-other (freed heap (first c.tv_console)) (first c.pad_console) a pad_other
      ∙ freed-other heap (first c.tv_console) a tv_other
      ∙ write-other c.heap (some formatted) (λ e. omega (arith, e, below))

  tv_row-text : text_of written tv_row ≡ (if strdup_ok then some line else none)
  unfolding tv_row
  tv_row-text = elim (Bool-cases strdup_ok) [
    | inl e ↦
        ap (λ (b : Bool). text_of written (if b then some (p + 1) else none)) e
        ∙ ground (arith, written_lem (p + 1))
    | inr e ↦ ap (λ (b : Bool). text_of written (if b then some (p + 1) else none)) e ∙ ground arith
  ]

  -- The rows move up by one, and the string stands in the last.
  tv_view :
      view after.heap after.tv_console
      ≡ drop 1 (view c.heap c.tv_console) ++ ((if strdup_ok then some line else none) ∷ [])
  unfolding after
  tv_view =
      view-append written (drop 1 c.tv_console) (tv_row ∷ [])
      ∙ ap₂ (λ xs (x : Option Bytes). xs ++ (x ∷ []))
          (view-frame c.heap written (drop 1 c.tv_console) (λ a h. written-kept a (omega arith))
            ∙ view-drop c.heap c.tv_console)
          tv_row-text

  pad_view :
      view after.heap after.pad_console ≡ drop 1 (view c.heap c.pad_console) ++ (some line ∷ [])
  unfolding after
  pad_view =
      view-append written (drop 1 c.pad_console) (some p ∷ [])
      ∙ ap₂ (λ xs (x : Option Bytes). xs ++ (x ∷ []))
          (view-frame c.heap written (drop 1 c.pad_console) (λ a h. written-kept a (omega arith))
            ∙ view-drop c.heap c.pad_console)
          (ground (arith, written_lem p))

-- What a line does to a console whose rows own their blocks. Nothing faults, the rows own their
-- blocks afterwards, and the rows of both screens move up by one, with the string clipped to 79
-- bytes in the last row of each; the television's stays empty where `strdup` fails.
pub put_line_lem :
    (formatted : Bytes) (strdup_ok : Bool) (c : Console)
    → IsOwned c
    → (c' : Console) × (put_line formatted strdup_ok c ≡ done c')
      × IsOwned c'
      × (view c'.heap c'.tv_console
          ≡ drop 1 (view c.heap c.tv_console)
            ++ ((if strdup_ok then some (clip formatted) else none) ∷ []))
      × (view c'.heap c'.pad_console
          ≡ drop 1 (view c.heap c.pad_console) ++ (some (clip formatted) ∷ []))
      × (c'.initialized ≡ c.initialized)
      × (c'.calls ≡ c.calls)
unfolding after line
put_line_lem formatted strdup_ok c o = (
  after c o formatted strdup_ok,
  put_line-after c o formatted strdup_ok,
  record {
    tv_size = rotated (tv_row c o formatted strdup_ok) c.tv_console o.tv_size;
    pad_size = rotated (some c.next_address) c.pad_console o.pad_size;
    owners = owners-after c o formatted strdup_ok;
    fresh = fresh_after c o formatted strdup_ok;
  },
  tv_view c o formatted strdup_ok,
  pad_view c o formatted strdup_ok,
  refl,
  refl,
)
