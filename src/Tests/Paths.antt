-- ===== src/Tests/Paths.antt =====
-- The theorems on paths and on addresses, at /games and at 192.168.0.1.
use ftpserv_u.Prelude.{◌+◌, ◌*◌, ◌^◌, ◌≡◌, refl, false, some, [], ◌∷◌, ◌++◌, done, fault, arith}
use ftpserv_u.Memory.{Bytes, same_string, is_graph}
use ftpserv_u.Text.{codes}
use ftpserv_u.Path.{path_acquire, new_path, path_merge}
use ftpserv_u.Path.Parse.{IsName}
use ftpserv_u.Path.Resolve.{IsResolved}
use ftpserv_u.Path.Merge.{destination, path_merge-destination}
use ftpserv_u.Path.RoundTrip.{new_path-path_acquire}
use ftpserv_u.Port.{parse_port_args}
use ftpserv_u.Port.RoundTrip.{comma_list, parse_port_args-comma_list, parse_port_args-sixth_comma}
use ftpserv_u.Commands.{passive_text}
use ftpserv_u.Commands.Invoke.Announced.{passive_text-parse_port_args}
use ftpserv_u.Tests.{games}

abbrev hd : Bytes
hd = codes "hd"

hd-IsName : IsName hd
unfolding is_graph
hd-IsName = (((refl, refl), ((refl, refl), tt)), λ e. cc)

games-IsResolved : IsResolved games
unfolding same_string
games-IsResolved = ((refl, refl), tt)

games-IsName : IsName (codes "games")
unfolding is_graph
games-IsName =
    (((refl, refl), ((refl, refl), ((refl, refl), ((refl, refl), ((refl, refl), tt))))), λ e. cc)

new_path-path_acquire_example : new_path (codes "/games" ++ (0 ∷ b'z' ∷ [])) ≡ done (some games)
unfolding path_acquire
new_path-path_acquire_example =
    new_path-path_acquire 64 games (b'z' ∷ []) refl games-IsResolved (games-IsName, tt) refl

path_merge-destination_example :
    path_merge (some games) (some (record { entities = hd ∷ []; absolute = false }))
    ≡ some (destination games (record { entities = hd ∷ []; absolute = false }))
path_merge-destination_example =
    path_merge-destination games (record { entities = hd ∷ []; absolute = false }) refl
      games-IsResolved

parse_port_args-comma_list_example :
    parse_port_args (comma_list (192 ∷ 168 ∷ 0 ∷ 1 ∷ 4 ∷ 1 ∷ []) ++ (0 ∷ []))
    ≡ done (192 * 2 ^ 24 + 168 * 2 ^ 16 + 0 * 2 ^ 8 + 1, 4 * 2 ^ 8 + 1)
parse_port_args-comma_list_example =
    parse_port_args-comma_list 192 168 0 1 4 1 []
      (omega arith, (omega arith, (omega arith, (omega arith, (omega arith, (omega arith, tt))))))

parse_port_args-sixth_comma_example :
    parse_port_args (comma_list (1 ∷ 2 ∷ 3 ∷ 4 ∷ 5 ∷ 6 ∷ []) ++ (b',' ∷ 0 ∷ [])) ≡ fault
parse_port_args-sixth_comma_example =
    parse_port_args-sixth_comma 1 2 3 4 5 6 (0 ∷ [])
      (omega arith, (omega arith, (omega arith, (omega arith, (omega arith, (omega arith, tt))))))

passive_text-parse_port_args_example :
    (text : Bytes) × (passive_text 0xC0A80001 1025
      ≡ codes "Entering passive mode (" ++ (text ++ (b')' ∷ [])))
    × (parse_port_args (text ++ (0 ∷ [])) ≡ done (0xC0A80001, 1025))
passive_text-parse_port_args_example =
    passive_text-parse_port_args 0xC0A80001 1025 [] (omega arith) (omega arith)
