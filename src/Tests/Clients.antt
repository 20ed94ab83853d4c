-- ===== src/Tests/Clients.antt =====
-- The theorems on commands, at a client in /games whose output buffer has no room for responses.
use ftpserv_u.Prelude.{
  ℕ, ◌≡◌, refl, true, false, some, none, List, [], ◌∷◌, ◌++◌, done, fault, arith, inl,
  if◌then◌else◌, All,
}
use ftpserv_u.Memory.{Bytes, same_string, is_graph}
use ftpserv_u.Text.{codes, decimal}
use ftpserv_u.IoBuffer.{IoBuffer, append, new_buffer}
use ftpserv_u.IoBuffer.Size.{new_buffer_lem}
use ftpserv_u.Path.{VfsPath, dot_dot}
use ftpserv_u.Path.Merge.{destination}
use ftpserv_u.Network.{create_serversocket, get_ephermal_port}
use ftpserv_u.Dtp.{Channel}
use ftpserv_u.Dtp.Channels.{
  load, dtp_poll, free_data_channel, new_passive_channel, new_data_channel, made_channel, listen_on,
}
use ftpserv_u.Vfs.{list_directory, build_directory_list, add_entries, get_buffer_size}
use ftpserv_u.Client.{Session, respond, response_text}
use ftpserv_u.Client.Responses.{with_output}
use ftpserv_u.Commands.{find_command, do_cdup, do_list, do_passive, passive_text}
use ftpserv_u.Commands.Invoke.{run_func, command_invoke, invoke_found}
use ftpserv_u.Commands.Invoke.Login.{with_state, command_invoke-unauthenticated}
use ftpserv_u.Commands.Invoke.Automaton.{login_of, steps, invoke_all, invoke_all-steps}
use ftpserv_u.Commands.Invoke.Quit.{quit-authenticates}
use ftpserv_u.Commands.Invoke.Directory.{IsDirectory, moved, cdup-dot_dot}
use ftpserv_u.Commands.Invoke.Destination.{
  leads_to_directory, directory_of, names_from, cwd-path_text,
}
use ftpserv_u.Path.Parse.{IsName}
use ftpserv_u.Path.Resolve.{IsPlain}
use ftpserv_u.Path.RoundTrip.{path_text}
use ftpserv_u.Commands.Invoke.Invariant.{command_invoke-IsDirectory}
use ftpserv_u.Commands.Invoke.Passive.{passive_again-dtp_poll}
use ftpserv_u.Commands.Invoke.Listing.{Stuck, list-Stuck}
use ftpserv_u.Tests.{games-IsDirectory, empty_buffer, games, root, env, os, session}

after_user : command_invoke env (codes "USER") (0 ∷ []) (session 0 0 none) ≡ done (session 1 0 none)
unfolding command_invoke invoke_found find_command same_string run_func respond response_text
    decimal append
after_user = refl

command_invoke-unauthenticated_example :
    session 1 0 none ≡ with_output (with_state 1 (session 0 0 none)) empty_buffer
command_invoke-unauthenticated_example =
    command_invoke-unauthenticated env (codes "USER") (0 ∷ []) (session 0 0 none) refl after_user

abbrev login_commands : List (Bytes × Bytes)
login_commands = (codes "USER", 0 ∷ []) ∷ (codes "PASS", 0 ∷ []) ∷ (codes "SYST", 0 ∷ []) ∷ []

after_login : invoke_all env login_commands (session 0 0 none) ≡ done (session 2 0 none)
unfolding command_invoke invoke_found find_command same_string run_func respond response_text
    decimal append
after_login = refl

invoke_all-steps_example : login_of 2 ≡ steps login_commands (login_of 0)
unfolding same_string
invoke_all-steps_example =
    invoke_all-steps env login_commands (session 0 0 none) games-IsDirectory
      (refl, (refl, (refl, tt))) after_login

after_quit :
    command_invoke env (codes "QUIT") (0 ∷ []) (session 0 0 none) ≡ done (session 16 0 none)
unfolding command_invoke invoke_found find_command same_string run_func respond response_text
    decimal append
after_quit = refl

quit-authenticates_example :
    command_invoke env (codes "CDUP") (0 ∷ []) (session 16 0 none)
    ≡ run_func env do_cdup (0 ∷ []) (session 16 0 none)
unfolding find_command same_string
quit-authenticates_example =
    quit-authenticates env (0 ∷ []) (session 0 0 none) (codes "CDUP") (0 ∷ []) refl after_quit refl

-- The relative path hd, and the text that it leaves in memory.
abbrev hd : VfsPath
hd = record { entities = codes "hd" ∷ []; absolute = false }

hd-IsName : All IsName hd.entities
unfolding is_graph
hd-IsName = ((((refl, refl), ((refl, refl), tt)), λ e. absurd cc), tt)

hd-IsPlain : All IsPlain hd.entities
unfolding same_string
hd-IsPlain = ((refl, refl), tt)

cwd-path_text_example :
    command_invoke env (codes "CWD") (path_text hd ++ (0 ∷ codes "old")) (session 2 0 none) ≡ (
      let names = names_from games hd in
      if leads_to_directory env names
      then respond 250
          (codes "CWD command successful.")
          (moved (session 2 0 none) (directory_of names))
      else respond 550 (codes "That directory does not exist.") (session 2 0 none))
cwd-path_text_example =
    cwd-path_text env (session 2 0 none) hd (codes "old") refl games-IsDirectory (λ r e. absurd cc)
      hd-IsName hd-IsPlain

cdup-dot_dot_example :
    run_func env do_cdup (0 ∷ []) (session 2 0 none)
    ≡ respond 250 (codes "CWD command successful.") (
        moved
          (session 2 0 none)
          (destination games (record { entities = dot_dot ∷ []; absolute = false })))
cdup-dot_dot_example = cdup-dot_dot env (0 ∷ []) (session 2 0 none) games-IsDirectory

after_cdup :
    command_invoke env (codes "CDUP") (0 ∷ []) (session 2 0 none)
    ≡ done (moved (session 2 0 none) root)
unfolding command_invoke invoke_found find_command same_string run_func respond response_text
    decimal append
after_cdup = refl

command_invoke-IsDirectory_example : IsDirectory root
command_invoke-IsDirectory_example =
    command_invoke-IsDirectory env (codes "CDUP") (0 ∷ []) (session 2 0 none) games-IsDirectory
      after_cdup

list-Stuck_example :
    (t : Session) × (p : ℕ) × (c : Channel) × (run_func env do_list (0 ∷ []) (session 2 0 none)
      ≡ respond 425 (codes "Failed to connect to client") t)
    × Stuck t p c
unfolding list_directory build_directory_list add_entries get_buffer_size
list-Stuck_example =
    list-Stuck env (0 ∷ []) (session 2 0 none) {text = some []} refl refl refl (omega arith)

-- A client whose channel is the one in the list.
abbrev before_passive : Session
before_passive = session 2 1 (some 1)

run_passive :
    {b : IoBuffer}
    → new_buffer true true true 192000 ≡ some b
    → (s' : Session) × (run_func env do_passive (0 ∷ []) before_passive ≡ done s')
unfolding run_func new_passive_channel new_data_channel made_channel listen_on free_data_channel
    load create_serversocket get_ephermal_port respond response_text decimal append passive_text
run_passive made = rw made (_, refl)

passive_ran : (s' : Session) × (run_func env do_passive (0 ∷ []) before_passive ≡ done s')
passive_ran = let (b, made, _, _, _, _, _) = new_buffer_lem 192000 in run_passive made

passive_again-dtp_poll_example : dtp_poll os passive_ran.0.channels ≡ fault
passive_again-dtp_poll_example =
    passive_again-dtp_poll env (0 ∷ []) before_passive 1 os refl (λ e. cc) (inl refl) passive_ran.1
