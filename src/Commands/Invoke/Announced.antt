-- ===== src/Commands/Invoke/Announced.antt =====
-- The address in the reply to PASV, against the way in which PORT reads an address.
use mathlib.Core.Path.{ap₂}
use ftpserv_u.Prelude.{
  ℕ, ◌/◌, ◌%◌, ◌^◌, ◌<◌, ◌≡◌, ap, sym, ◌∙◌, List, [], ◌∷◌, ◌++◌, append_assoc, done, arith,
}
use ftpserv_u.Memory.{Bytes}
use ftpserv_u.Text.{codes, decimal}
use ftpserv_u.Port.{parse_port_args}
use ftpserv_u.Port.RoundTrip.{comma_list, parse_port_args-comma_list}
use ftpserv_u.Commands.{passive_text}

comma_list-append :
    (n m : ℕ) (ns : List ℕ) (z : Bytes)
    → comma_list (n ∷ m ∷ ns) ++ z ≡ decimal n ++ (b',' ∷ (comma_list (m ∷ ns) ++ z))
comma_list-append n m ns z = append_assoc (decimal n) (b',' ∷ comma_list (m ∷ ns)) z

six-append :
    (a b c d e f : ℕ) (z : Bytes)
    → comma_list (a ∷ b ∷ c ∷ d ∷ e ∷ f ∷ []) ++ z
      ≡ decimal a
        ++ (b','
            ∷ (decimal b
                ++ (b','
                    ∷ (decimal c
                        ++ (b','
                            ∷ (decimal d ++ (b',' ∷ (decimal e ++ (b',' ∷ (decimal f ++ z))))))))))
six-append a b c d e f z =
    comma_list-append a b (c ∷ d ∷ e ∷ f ∷ []) z
    ∙ under a (
        comma_list-append b c (d ∷ e ∷ f ∷ []) z
        ∙ under b (
            comma_list-append c d (e ∷ f ∷ []) z
            ∙ under c (comma_list-append d e (f ∷ []) z ∙ under d (comma_list-append e f [] z))))
  where
    under : (n : ℕ) {x y : Bytes} → x ≡ y → decimal n ++ (b',' ∷ x) ≡ decimal n ++ (b',' ∷ y)
    under n h = ap (λ (t : Bytes). decimal n ++ (b',' ∷ t)) h

-- The reply to PASV holds the address in the form that PORT takes: the text between its
-- parentheses is read back as that address and port, of 32 and 16 bits.
pub passive_text-parse_port_args :
    (ip port : ℕ) (stale : Bytes)
    → ip < 2 ^ 32
    → port < 2 ^ 16
    → (text : Bytes) × (passive_text ip port
        ≡ codes "Entering passive mode (" ++ (text ++ (b')' ∷ [])))
      × (parse_port_args (text ++ (0 ∷ stale)) ≡ done (ip, port))
passive_text-parse_port_args ip port stale hi hp = (
  comma_list (a ∷ b ∷ c ∷ d ∷ e ∷ f ∷ []),
  unfold passive_text in
      ap (◌++◌ (codes "Entering passive mode (")) (sym (six-append a b c d e f (b')' ∷ []))),
  parse_port_args-comma_list a b c d e f stale
        (omega arith, (omega arith, (omega arith, (omega arith, (omega arith, (omega arith, tt))))))
      ∙ ap₂ (λ (x y : ℕ). done (x, y)) (omega arith) (omega arith),
)
  where
    a : ℕ
    a = ip / 2 ^ 24 % 256

    b : ℕ
    b = ip / 2 ^ 16 % 256

    c : ℕ
    c = ip / 2 ^ 8 % 256

    d : ℕ
    d = ip % 256

    e : ℕ
    e = port / 2 ^ 8 % 256

    f : ℕ
    f = port % 256
