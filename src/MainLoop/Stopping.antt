-- ===== src/MainLoop/Stopping.antt =====
-- When the loop of the program ends.
use ftpserv_u.Prelude.{
  ◌≡◌, refl, ap, sym, ◌∙◌, ℕ, ℤ, pos, negsuc, is_neg, Bool, true, false, ◌||◌, List, [], ◌∷◌, Out,
  done, fault, >>=-eq-done, ◌==◌, if◌then◌else◌, arith,
}
use ftpserv_u.Network.{accept_poll}
use ftpserv_u.Input.{input_handler, vpad_cmd_exit}
use ftpserv_u.Mounts.{Mounts}
use ftpserv_u.Server.{network_handler}
use ftpserv_u.Server.Slots.{network_handler-result}
use ftpserv_u.MainLoop.{Turn, World, obey, to_bool, turn, loop}

-- The turn is the last: `accept` fails for another reason than that nobody calls, or HOME is
-- pressed.
abbrev pub is_last : Turn → ℕ → Bool
is_last t buttons =
    is_neg (accept_poll t.round.accepted).0 || (input_handler t.pad buttons).0 == vpad_cmd_exit

-- One of the turns is the last, where the buttons go from turn to turn.
unfoldable pub ends : List Turn → ℕ → Bool
ends [] buttons = false
ends (t ∷ turns) buttons =
    let later = ends turns (input_handler t.pad buttons).1 in is_last t buttons || later

obey-exit :
    (iosuhax_mount : ℕ) (cmd : ℕ) (fsa_open : ℤ) (down : Bool) (m : Mounts)
    → (obey iosuhax_mount cmd fsa_open down m).0 ≡ down || cmd == vpad_cmd_exit
unfolding obey
obey-exit iosuhax_mount cmd fsa_open down m = ground arith

result-to_bool :
    (r : ℤ) {result : ℤ}
    → result ≡ (if is_neg r then negsuc 0 else pos 0)
    → to_bool result ≡ is_neg r
result-to_bool (pos n) e = rw e refl
result-to_bool (negsuc n) e = rw e refl

turn-is_last :
    (iosuhax_mount : ℕ) (t : Turn) (w : World) {down : Bool} {w' : World}
    → turn iosuhax_mount t w ≡ done (down, w')
    → (down ≡ is_last t w.buttons) × (w'.buttons ≡ (input_handler t.pad w.buttons).1)
unfolding turn
turn-is_last iosuhax_mount t w {down} {w'} h =
    let ((result, server), e, rest) = >>=-eq-done (network_handler t.round w.server) _ h in
    let failed : to_bool result ≡ is_neg (accept_poll t.round.accepted).0 =
      result-to_bool (accept_poll t.round.accepted).0 (network_handler-result t.round w.server e) in
    let exit =
      obey-exit iosuhax_mount (input_handler t.pad w.buttons).0 t.fsa_open (to_bool result)
        w.mounts in
    (sym (ap left rest) ∙ exit ∙ rw failed refl, sym (ap pressed rest))
  where
    left : Out (Bool × World) → Bool
    left (done (down, w)) = down
    left fault = true

    pressed : Out (Bool × World) → ℕ
    pressed (done (down, w)) = w.buttons
    pressed fault = w'.buttons

ended_of : Out (Bool × World) → Bool
ended_of (done (ended, w)) = ended
ended_of fault = false

after_turn :
    (iosuhax_mount : ℕ) (turns : List Turn) (down : Bool) (next : World) {ended : Bool} {w' : World}
    → (loop iosuhax_mount turns false next ≡ done (ended, w') → ended ≡ ends turns next.buttons)
    → loop iosuhax_mount turns down next ≡ done (ended, w')
    → ended ≡ down || ends turns next.buttons
unfolding loop ended_of
after_turn iosuhax_mount [] true next later h = ap ended_of (sym h)
after_turn iosuhax_mount (t ∷ turns) true next later h = ap ended_of (sym h)
after_turn iosuhax_mount [] false next later h = later h
after_turn iosuhax_mount (t ∷ turns) false next later h = later h

-- If no turn faults, the loop ends exactly if one of the turns is the last; otherwise it goes on
-- to wait for the next turn.
pub loop-ends :
    (iosuhax_mount : ℕ) (turns : List Turn) (w : World) {ended : Bool} {w' : World}
    → loop iosuhax_mount turns false w ≡ done (ended, w')
    → ended ≡ ends turns w.buttons
unfolding loop ends ended_of
loop-ends iosuhax_mount [] w h = ap ended_of (sym h)
loop-ends iosuhax_mount (t ∷ turns) w h =
    let ((down, next), e, rest) = >>=-eq-done (turn iosuhax_mount t w) _ h in
    let (last, pressed) = turn-is_last iosuhax_mount t w e in
    after_turn iosuhax_mount turns down next (λ k. loop-ends iosuhax_mount turns next k) rest
    ∙ rw (last, pressed) refl
