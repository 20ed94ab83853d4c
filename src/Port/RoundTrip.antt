-- ===== src/Port/RoundTrip.antt =====
-- The arguments of PORT, read back from six decimal numbers.
use mathlib.Core.Path.{ap₂}
use ftpserv_u.Prelude.{
  ℕ, zero, suc, ◌+◌, ◌*◌, ◌^◌, ◌/◌, ◌%◌, ◌≤◌, ◌<◌, ◌≡◌, refl, ap, ◌∙◌, true, none, some, List, [],
  ◌∷◌, ◌++◌, append_assoc, done, fault, arith, ltb, ◌==◌, if◌then◌else◌, Bool-cases, inl, inr,
  length, length-append, All, All-append,
}
use ftpserv_u.Memory.{Bytes}
use ftpserv_u.Text.{decimal, decimal_from}
use ftpserv_u.Port.{parse_args, all_bytes, parse_port_args}

-- One digit is read.
parse_args-digit :
    (d : ℕ) (rest : Bytes) (stored : List ℕ) (segment : ℕ)
    → d < 10
    → length stored < 6
    → segment < 1000
    → parse_args ((b'0' + d) ∷ rest) stored segment ≡ parse_args rest stored (segment * 10 + d)
unfolding parse_args
parse_args-digit d rest stored segment h k m = ground arith

parse_args-decimal_from :
    (fuel n : ℕ) (rest : Bytes) (stored : List ℕ)
    → n < fuel
    → n < 10000
    → length stored < 6
    → parse_args (decimal_from fuel n ++ rest) stored 0 ≡ parse_args rest stored n
unfolding decimal_from
parse_args-decimal_from zero n rest stored h k m = absurd (omega arith)
parse_args-decimal_from (suc fuel) n rest stored h k m = elim (Bool-cases (ltb n 10)) [
  | inl small ↦ rw small (
      parse_args-digit (n % 10) rest stored 0 (omega arith) m (omega arith)
      ∙ ap (parse_args rest stored) (ground arith))
  | inr large ↦ rw large (
      ap (λ (t : Bytes). parse_args t stored 0)
        (append_assoc (decimal_from fuel (n / 10)) ((b'0' + n % 10) ∷ []) rest)
      ∙ parse_args-decimal_from fuel (n / 10) ((b'0' + n % 10) ∷ rest) stored (ground arith)
          (omega arith) m
      ∙ parse_args-digit (n % 10) rest stored (n / 10) (omega arith) m (omega arith)
      ∙ ap (parse_args rest stored) (omega arith))
]

parse_args-decimal :
    (n : ℕ) (rest : Bytes) (stored : List ℕ)
    → n ≤ 255
    → length stored < 6
    → parse_args (decimal n ++ rest) stored 0 ≡ parse_args rest stored n
unfolding decimal
parse_args-decimal n rest stored h k =
    parse_args-decimal_from (suc n) n rest stored (omega arith) (omega arith) k

parse_args-comma :
    (n : ℕ) (rest : Bytes) (stored : List ℕ)
    → n ≤ 255
    → length stored < 6
    → parse_args (b',' ∷ rest) stored n ≡ parse_args rest (stored ++ (n ∷ [])) 0
unfolding parse_args
parse_args-comma n rest stored h k = ground arith

-- Numbers in decimal, with a comma between two.
abbrev pub comma_list : List ℕ → Bytes
comma_list [] = []
comma_list (n ∷ []) = decimal n
comma_list (n ∷ m ∷ ns) = decimal n ++ (b',' ∷ comma_list (m ∷ ns))

abbrev pub AreBytes : List ℕ → Type 0
AreBytes = All (λ b. b ≤ 255)

all_bytes-AreBytes : (bs : List ℕ) → AreBytes bs → all_bytes bs ≡ true
unfolding all_bytes
all_bytes-AreBytes [] h = refl
all_bytes-AreBytes (b ∷ bs) h = ground (arith, all_bytes-AreBytes bs h.1)

parse_args-nul :
    (n : ℕ) (stored : List ℕ) (stale : Bytes)
    → AreBytes (stored ++ (n ∷ []))
    → length stored < 6
    → parse_args (0 ∷ stale) stored n
      ≡ done (if length stored == 5 then some (stored ++ (n ∷ [])) else none)
unfolding parse_args
parse_args-nul n stored stale h k = ground (arith, all_bytes-AreBytes (stored ++ (n ∷ [])) h)

-- Six bytes written in decimal with commas are read back, and fewer are refused.
parse_args-comma_list :
    (n : ℕ) (ns stored : List ℕ) (stale : Bytes)
    → AreBytes stored
    → AreBytes (n ∷ ns)
    → length stored + length ns < 6
    → parse_args (comma_list (n ∷ ns) ++ (0 ∷ stale)) stored 0
      ≡ done (if length stored + length ns == 5 then some (stored ++ (n ∷ ns)) else none)
parse_args-comma_list n [] stored stale g h k =
    parse_args-decimal n (0 ∷ stale) stored h.0 (omega arith)
    ∙ parse_args-nul n stored stale (All-append (λ b. b ≤ 255) stored (n ∷ []) g h) (omega arith)
    ∙ ap (λ (k : ℕ). done (if k == 5 then some (stored ++ (n ∷ [])) else none)) (omega arith)
parse_args-comma_list n (m ∷ ns) stored stale g h k =
    ap (λ (t : Bytes). parse_args t stored 0)
      (append_assoc (decimal n) (b',' ∷ comma_list (m ∷ ns)) (0 ∷ stale))
    ∙ parse_args-decimal n (b',' ∷ (comma_list (m ∷ ns) ++ (0 ∷ stale))) stored h.0 (omega arith)
    ∙ parse_args-comma n _ stored h.0 (omega arith)
    ∙ parse_args-comma_list m ns (stored ++ (n ∷ [])) stale
        (All-append (λ b. b ≤ 255) stored (n ∷ []) g (h.0, tt)) h.1
        (omega (arith, length-append stored (n ∷ [])))
    ∙ ap₂ (λ (k : ℕ) (l : List ℕ). done (if k == 5 then some l else none))
        (omega (arith, length-append stored (n ∷ []))) (append_assoc stored (n ∷ []) (m ∷ ns))

-- The address and the port of six bytes in decimal with commas between them are read as the
-- bytes say, whatever memory holds behind the text.
pub parse_port_args-comma_list :
    (a b c d e f : ℕ) (stale : Bytes)
    → AreBytes (a ∷ b ∷ c ∷ d ∷ e ∷ f ∷ [])
    → parse_port_args (comma_list (a ∷ b ∷ c ∷ d ∷ e ∷ f ∷ []) ++ (0 ∷ stale))
      ≡ done (a * 2 ^ 24 + b * 2 ^ 16 + c * 2 ^ 8 + d, e * 2 ^ 8 + f)
unfolding parse_port_args
parse_port_args-comma_list a b c d e f stale h =
    ground (arith, parse_args-comma_list a (b ∷ c ∷ d ∷ e ∷ f ∷ []) [] stale tt h (omega arith))

parse_args-full :
    (rest : Bytes) (stored : List ℕ) → length stored ≡ 6 → parse_args rest stored 0 ≡ fault
unfolding parse_args
parse_args-full [] stored h = refl
parse_args-full (c ∷ rest) stored h = ground arith

parse_args-overrun :
    (n : ℕ) (ns stored : List ℕ) (rest : Bytes)
    → AreBytes (n ∷ ns)
    → length stored + length ns ≡ 5
    → parse_args (comma_list (n ∷ ns) ++ (b',' ∷ rest)) stored 0 ≡ fault
parse_args-overrun n [] stored rest h k =
    parse_args-decimal n (b',' ∷ rest) stored h.0 (omega arith)
    ∙ parse_args-comma n rest stored h.0 (omega arith)
    ∙ parse_args-full rest (stored ++ (n ∷ [])) (omega (arith, length-append stored (n ∷ [])))
parse_args-overrun n (m ∷ ns) stored rest h k =
    ap (λ (t : Bytes). parse_args t stored 0)
      (append_assoc (decimal n) (b',' ∷ comma_list (m ∷ ns)) (b',' ∷ rest))
    ∙ parse_args-decimal n _ stored h.0 (omega arith)
    ∙ parse_args-comma n _ stored h.0 (omega arith)
    ∙ parse_args-overrun m ns (stored ++ (n ∷ [])) rest h.1
        (omega (arith, length-append stored (n ∷ [])))

-- A sixth comma is stored past the end of the array of six numbers: the text of six bytes in
-- decimal with a comma behind each is a fault, whatever follows.
pub parse_port_args-sixth_comma :
    (a b c d e f : ℕ) (rest : Bytes)
    → AreBytes (a ∷ b ∷ c ∷ d ∷ e ∷ f ∷ [])
    → parse_port_args (comma_list (a ∷ b ∷ c ∷ d ∷ e ∷ f ∷ []) ++ (b',' ∷ rest)) ≡ fault
unfolding parse_port_args
parse_port_args-sixth_comma a b c d e f rest h =
    ground (arith, parse_args-overrun a (b ∷ c ∷ d ∷ e ∷ f ∷ []) [] rest h refl)
