-- ===== src/Text.antt =====
-- String literals of the source as bytes, and the `%d` of printf for numbers that are not
-- negative.
use Prim.Native.Char.{code}
use Prim.Native.String.{String}
use ftpserv_u.Prelude.{ℕ, zero, suc, ◌+◌, ◌/◌, ◌%◌, [], ◌∷◌, ◌++◌, ltb, if◌then◌else◌}
use ftpserv_u.Memory.{Bytes}

abbrev pub codes : String → Bytes
codes String.[] = []
codes (String.◌∷◌ c s) = code c ∷ codes s

-- On fuel above the number.
unfoldable pub decimal_from : ℕ → ℕ → Bytes
decimal_from zero n = []
decimal_from (suc fuel) n =
    let front = decimal_from fuel (n / 10) in
    (if ltb n 10 then [] else front) ++ ((b'0' + n % 10) ∷ [])

unfoldable pub decimal : ℕ → Bytes
unfolding decimal_from
decimal n = decimal_from (suc n) n
