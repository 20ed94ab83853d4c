-- ===== src/Port.antt =====
-- src/commands/port.c, `parse_port_args`: six numbers with commas between them.
pub mod RoundTrip
use ftpserv_u.Prelude.{
  ℕ, ◌+◌, ◌-◌, ◌*◌, ◌^◌, Bool, true, false, ◌||◌, ◌&&◌, not, Option, none, some, List, [], ◌∷◌,
  ◌++◌, Out, done, fault, ltb, leb, ◌==◌, if◌then◌else◌, length,
}
use ftpserv_u.Memory.{Bytes, is_space, is_digit}

abbrev pub int_max : ℕ
int_max = 2 ^ 31 - 1

pub all_bytes : List ℕ → Bool
all_bytes [] = true
all_bytes (b ∷ bs) = not (ltb 255 b) && all_bytes bs

-- Behind the loop: `bytes[digit]` is outside the array once six commas have been read.
pub finish_args : List ℕ → ℕ → Out (Option (List ℕ))
unfolding all_bytes
finish_args stored segment =
    let bytes = stored ++ (segment ∷ []) in
    if leb 6 (length stored)
    then fault
    else if not (length stored == 5)
    then done none
    else done (if all_bytes bytes then some bytes else none)

-- The loop over the text. `stored` holds the entries of `bytes` below `digit`; those behind stay
-- zero and are not read. `none` is the early return.
unfoldable pub parse_args : Bytes → List ℕ → ℕ → Out (Option (List ℕ))
unfolding is_space is_digit finish_args
parse_args [] stored segment = fault
parse_args (c ∷ cs) stored segment =
    let is_comma = c == b',' in
    let segment' = segment * 10 + (c - b'0') in
    let stored' = if is_comma then stored ++ (segment ∷ []) else stored in
    let next = if is_space c then segment else if is_comma then 0 else segment' in
    let rest = parse_args cs stored' next in
    if c == 0 || leb 6 (length stored)
    then finish_args stored segment
    else if is_space c
    then rest
    else if not (is_digit c) && not is_comma
    then done none
    else if is_digit c && ltb int_max segment'
    then fault
    else if is_comma && ltb 255 segment
    then done none
    else rest

-- The numbers of `parse_port_args`, zero where it returns early.
pub address_of : List ℕ → ℕ × ℕ
address_of (a ∷ b ∷ c ∷ d ∷ e ∷ f ∷ []) = (a * 2 ^ 24 + b * 2 ^ 16 + c * 2 ^ 8 + d, e * 2 ^ 8 + f)
address_of _ = (0, 0)

pub address_or_zero : Option (List ℕ) → ℕ × ℕ
address_or_zero none = (0, 0)
address_or_zero (some bytes) = address_of bytes

unfoldable pub parse_port_args : Bytes → Out (ℕ × ℕ)
unfolding parse_args address_or_zero address_of
parse_port_args args = elim (parse_args args [] 0) [
  | fault ↦ fault
  | done parsed ↦ done (address_or_zero parsed)
]
