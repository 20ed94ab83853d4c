-- ===== src/Logging/Writing.antt =====
-- The datagrams of `logging_write`.
use ftpserv_u.Prelude.{
  ℕ, zero, suc, ◌≤◌, ◌<◌, ◌≡◌, refl, ap, sym, ◌∙◌, ℤ, pos, negsuc, is_neg, false, inl, inr, ◌⊎◌,
  none, some, List, [], ◌∷◌, ◌++◌, append_assoc, arith, ltb, if◌then◌else◌, length, take, drop,
  take-append-drop, length-drop, length-take_le, All,
}
use ftpserv_u.Memory.{Bytes}
use ftpserv_u.Logging.{Log, Sending, dgram_size, write_blocks, logging_write}

-- The bytes of these blocks that `sendto` says it has sent.
abbrev pub sent_of : ℤ → Bytes → Bytes
sent_of (pos n) block = take n block
sent_of (negsuc e) block = []

abbrev pub delivered : Sending → ℕ → List Bytes → Bytes
delivered sendto i [] = []
delivered sendto i (b ∷ bs) = sent_of (sendto i b) b ++ delivered sendto (suc i) bs

-- `sendto` fails, or sends one byte at least and no more than it is given.
abbrev pub Works : Sending → Type 0
Works sendto =
    (i : ℕ) (block : Bytes) (n : ℕ)
    → 0 < length block
    → sendto i block ≡ pos n
    → (0 < n) × (n ≤ length block)

abbrev pub IsDatagram : Bytes → Type 0
IsDatagram block = (0 < length block) × (length block ≤ dgram_size)

-- The blocks of a write, and the text that they leave behind, none of it if no call fails.
pub record Written (sendto : Sending) (i : ℕ) (ptr : Bytes) (blocks : List Bytes) : Type 0 where
  pub datagrams : All IsDatagram blocks
  pub rest : Bytes
  pub in_order : ptr ≡ delivered sendto i blocks ++ rest
  pub complete : ((j : ℕ) (block : Bytes) → is_neg (sendto j block) ≡ false) → rest ≡ []

abbrev block_size : ℕ → ℕ
block_size remaining = if ltb remaining dgram_size then remaining else dgram_size

abbrev block_of : Bytes → Bytes
block_of ptr = take (block_size (length ptr)) ptr

bounds :
    (n : ℕ)
    → (0 < block_size (suc n)) × (block_size (suc n) ≤ dgram_size) × (block_size (suc n) ≤ suc n)
bounds n = ground arith

block_of-IsDatagram :
    (c : ℕ) (cs : Bytes)
    → IsDatagram (block_of (c ∷ cs)) × (length (block_of (c ∷ cs)) ≤ length (c ∷ cs))
block_of-IsDatagram c cs =
    let n = length-take_le (block_size (suc (length cs))) (c ∷ cs) (bounds (length cs)).2 in
    let b = bounds (length cs) in
    ((omega (arith, n, b.0), omega (arith, n, b.1)), omega (arith, n, b.2))

take-take : (m n : ℕ) (xs : Bytes) → m ≤ length (take n xs) → take m (take n xs) ≡ take m xs
take-take zero n xs h = refl
take-take (suc m) zero xs h = absurd (omega arith)
take-take (suc m) (suc n) [] h = refl
take-take (suc m) (suc n) (x ∷ xs) h = ap (◌∷◌ x) (take-take m n xs (omega arith))

abbrev Wrote : ℕ → Sending → ℕ → Bytes → Type 0
Wrote fuel sendto i ptr =
    (blocks : List Bytes) × (write_blocks fuel sendto i ptr ≡ some blocks)
    × Written sendto i ptr blocks

-- A round whose call fails is the last.
block_failed :
    (fuel : ℕ) (sendto : Sending) (i c : ℕ) (cs : Bytes) {e : ℕ}
    → sendto i (block_of (c ∷ cs)) ≡ negsuc e
    → Wrote (suc fuel) sendto i (c ∷ cs)
unfolding write_blocks
block_failed fuel sendto i c cs f = (
  block_of (c ∷ cs) ∷ [],
  ground arith,
  record {
    datagrams = ((block_of-IsDatagram c cs).0, tt);
    rest = c ∷ cs;
    in_order = rw f refl;
    complete = λ k. absurd (let none_fails = k i (block_of (c ∷ cs)) in ground arith);
  },
)

block_sent :
    (fuel : ℕ) (sendto : Sending) (i c : ℕ) (cs : Bytes) (sent : ℕ)
    → sendto i (block_of (c ∷ cs)) ≡ pos sent
    → sent ≤ length (block_of (c ∷ cs))
    → Wrote fuel sendto (suc i) (drop sent (c ∷ cs))
    → Wrote (suc fuel) sendto i (c ∷ cs)
unfolding write_blocks
block_sent fuel sendto i c cs sent f within (blocks, e, written) = (
  block_of (c ∷ cs) ∷ blocks,
  ground arith,
  record {
    datagrams = ((block_of-IsDatagram c cs).0, written.datagrams);
    rest = written.rest;
    in_order =
        sym (take-append-drop sent (c ∷ cs))
        ∙ ap (λ (xs : Bytes). take sent (c ∷ cs) ++ xs) written.in_order
        ∙ sym (append_assoc (take sent (c ∷ cs)) (delivered sendto (suc i) blocks) written.rest)
        ∙ ap (λ (xs : Bytes). (xs ++ delivered sendto (suc i) blocks) ++ written.rest) front;
    complete = written.complete;
  },
)
  where
    front : take sent (c ∷ cs) ≡ sent_of (sendto i (block_of (c ∷ cs))) (block_of (c ∷ cs))
    front = rw f (sym (take-take sent (block_size (suc (length cs))) (c ∷ cs) within))

int_cases : (n : ℤ) → ((k : ℕ) × (n ≡ pos k)) ⊎ ((k : ℕ) × (n ≡ negsuc k))
int_cases (pos k) = inl (k, refl)
int_cases (negsuc k) = inr (k, refl)

write_blocks-Written :
    (fuel : ℕ) (sendto : Sending) (i : ℕ) (ptr : Bytes)
    → Works sendto
    → length ptr < fuel
    → Wrote fuel sendto i ptr
unfolding write_blocks
write_blocks-Written zero sendto i ptr w h = absurd (omega arith)
write_blocks-Written (suc fuel) sendto i [] w h =
    ([], refl, record { datagrams = tt; rest = []; in_order = refl; complete = λ k. refl })
write_blocks-Written (suc fuel) sendto i (c ∷ cs) w h =
    elim (int_cases (sendto i (block_of (c ∷ cs)))) [
      | inr (e, f) ↦ block_failed fuel sendto i c cs f
      | inl (sent, f) ↦
          let (some_sent, within) = w i (block_of (c ∷ cs)) sent (block_of-IsDatagram c cs).0.0 f in
          block_sent fuel sendto i c cs sent f within (
            write_blocks-Written fuel sendto (suc i) (drop sent (c ∷ cs)) w
              (omega (arith, length-drop sent (c ∷ cs))))
    ]

-- Where `sendto` fails or sends some of what it is given, a write on an open socket ends within as
-- many rounds as the text has bytes, and one more. It returns the length of the text whatever was
-- sent; no datagram is empty or longer than 576 bytes; and the bytes sent are the front of the
-- text, in order, and all of it if no call fails.
pub logging_write-Written :
    (fuel : ℕ) (sendto : Sending) (log : Log) (ptr : Bytes)
    → is_neg log.udp_fd ≡ false
    → Works sendto
    → length ptr < fuel
    → (blocks : List Bytes) × (logging_write fuel sendto log ptr ≡ some (length ptr, blocks))
      × Written sendto 0 ptr blocks
unfolding logging_write
logging_write-Written fuel sendto log ptr o w h =
    let (blocks, e, written) = write_blocks-Written fuel sendto 0 ptr w h in
    (blocks, rw (o, e) refl, written)

write_blocks-spin :
    (fuel : ℕ) (sendto : Sending) (i c : ℕ) (cs : Bytes)
    → ((j : ℕ) (block : Bytes) → sendto j block ≡ pos 0)
    → write_blocks fuel sendto i (c ∷ cs) ≡ none
unfolding write_blocks
write_blocks-spin zero sendto i c cs h = refl
write_blocks-spin (suc fuel) sendto i c cs h =
    let again = write_blocks-spin fuel sendto (suc i) c cs h in
    let nothing = h i (block_of (c ∷ cs)) in ground arith

-- While `sendto` keeps sending nothing without failing, a write of some text on an open socket
-- never ends.
pub logging_write-spin :
    (fuel : ℕ) (sendto : Sending) (log : Log) (c : ℕ) (cs : Bytes)
    → is_neg log.udp_fd ≡ false
    → ((j : ℕ) (block : Bytes) → sendto j block ≡ pos 0)
    → logging_write fuel sendto log (c ∷ cs) ≡ none
unfolding logging_write
logging_write-spin fuel sendto log c cs o h = rw (o, write_blocks-spin fuel sendto 0 c cs h) refl
