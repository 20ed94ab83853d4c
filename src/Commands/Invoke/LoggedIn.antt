-- ===== src/Commands/Invoke/LoggedIn.antt =====
-- What the commands of a client that has logged in keep, unless they log it in or out.
use Prim.Native.Nat.{bit_or, bit_or-bitwise, digits, max}
use ftpserv_u.Prelude.{ℕ, zero, suc, ◌/◌, ◌%◌, ◌≤◌, ◌≡◌, true, arith, leb}
use ftpserv_u.Client.{Client, state_auth, state_data}
use ftpserv_u.Client.Responses.{ftp_response_lem}
use ftpserv_u.Commands.Invoke.Directory.{IsDirectory}
use ftpserv_u.Commands.Invoke.Framed.{IsFramed}

abbrev or_digits : ℕ → ℕ → ℕ → ℕ
or_digits = digits (λ b. b) max

-- A digit that is set shows in the disjunction.
or_one : (n a : ℕ) → 1 ≤ or_digits n a 1
or_one zero a = omega arith
or_one (suc n) zero = omega arith
or_one (suc n) (suc a) = omega (arith, max_one (suc a % 2))
  where
    max_one : (x : ℕ) → 1 ≤ max x 1
    max_one x = omega arith

or_twice :
    (b : ℕ) → 1 ≤ b → ((n a : ℕ) → 1 ≤ or_digits n a (b / 2)) → (n a : ℕ) → (1 ≤ or_digits n a b)
or_twice b h k zero a = h
or_twice b h k (suc n) zero = h
or_twice b h k (suc n) (suc a) = omega (arith, k n (suc a / 2))

or_eight : (n a : ℕ) → 2 ≤ or_digits n a 8
or_eight zero a = omega arith
or_eight (suc n) zero = omega arith
or_eight (suc n) (suc a) =
    let four = or_twice 4 (omega arith) (or_twice 2 (omega arith) or_one) n (suc a / 2) in
    omega (arith, four)

flagged-logged_in : (state : ℕ) → leb state_auth (bit_or state state_data) ≡ true
flagged-logged_in state =
    let high = or_eight state state in ground (arith, bit_or-bitwise state 8, high)

-- A client that has logged in, in a directory that can be walked from.
abbrev pub LoggedIn : Client → Type 0
LoggedIn c = IsDirectory c.cwd × (leb state_auth c.state ≡ true)

pub LoggedIn-IsFramed : IsFramed LoggedIn
LoggedIn-IsFramed = record {
  flagged = λ c h. (h.0, flagged-logged_in c.state);
  channel = λ c p h. h;
  response = λ code c msg h. ftp_response_lem LoggedIn code c msg (λ b v. h);
  directory = λ c path d h. (d, h.1);
  is_directory = λ c h. h.0;
}
