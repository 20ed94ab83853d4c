-- ===== src/Dtp/Channels/Ledger.antt =====
-- The descriptors of all channels in the lists over `dtp_poll`.
use mathlib.Core.Path.{subst}
use ftpserv_u.Prelude.{
  ℕ, ◌+◌, ◌≡◌, ◌≢◌, refl, ap, sym, ◌∙◌, ℤ, Option, none, some, List, [], ◌∷◌, ◌++◌, done,
  >>=-eq-done, arith, All,
}
use ftpserv_u.Dtp.{Channel, Os}
use ftpserv_u.Dtp.Channels.{Channels, update, load, closes_of, free_data_channel}
use ftpserv_u.Dtp.Channels.Sound.{Heap}
use ftpserv_u.Dtp.Channels.Held.{count, count-append, held, IsPlain, accepts}

abbrev pub at_channel {ℓ} : {A : Type ℓ} → A → (Channel → A) → Option Channel → A
at_channel nothing f none = nothing
at_channel nothing f (some c) = f c

-- What the channels that some pointers lead to hold, and what a poll of each accepts.
abbrev pub all_held : Heap → List ℕ → List ℤ
all_held heap [] = []
all_held heap (p ∷ ps) = at_channel [] held (heap p) ++ all_held heap ps

abbrev pub all_accepts : Os → Heap → List ℕ → List ℤ
all_accepts os heap [] = []
all_accepts os heap (p ∷ ps) = at_channel [] (accepts os) (heap p) ++ all_accepts os heap ps

-- They copy to or from files.
abbrev pub AllPlain : Heap → List ℕ → Type 0
AllPlain heap = All (λ p. at_channel Unit IsPlain (heap p))

-- A change at an address that no pointer of the list has.
pub all_held-elsewhere :
    (heap : Heap) (p : ℕ) (o : Option Channel) (ps : List ℕ)
    → All (λ q. p ≢ q) ps
    → all_held (update heap p o) ps ≡ all_held heap ps
all_held-elsewhere heap p o [] ne = refl
all_held-elsewhere heap p o (q ∷ ps) ne =
    let same : update heap p o q ≡ heap q = ground (arith, ne.0) in
    rw (same, all_held-elsewhere heap p o ps ne.1) refl

pub all_accepts-elsewhere :
    (os : Os) (heap : Heap) (p : ℕ) (o : Option Channel) (ps : List ℕ)
    → All (λ q. p ≢ q) ps
    → all_accepts os (update heap p o) ps ≡ all_accepts os heap ps
all_accepts-elsewhere os heap p o [] ne = refl
all_accepts-elsewhere os heap p o (q ∷ ps) ne =
    let same : update heap p o q ≡ heap q = ground (arith, ne.0) in
    rw (same, all_accepts-elsewhere os heap p o ps ne.1) refl

pub AllPlain-elsewhere :
    (heap : Heap) (p : ℕ) (o : Option Channel) (ps : List ℕ)
    → All (λ q. p ≢ q) ps
    → AllPlain heap ps
    → AllPlain (update heap p o) ps
AllPlain-elsewhere heap p o [] ne h = tt
AllPlain-elsewhere heap p o (q ∷ ps) ne h =
    let same : update heap p o q ≡ heap q = ground (arith, ne.0) in
    (subst (at_channel Unit IsPlain) (sym same) h.0, AllPlain-elsewhere heap p o ps ne.1 h.1)

pub count-middle :
    (fd : ℤ) (heap : Heap) (ps qs : List ℕ) (p : ℕ) (c : Channel)
    → heap p ≡ some c
    → count fd (all_held heap (ps ++ (p ∷ qs)))
      ≡ count fd (all_held heap (ps ++ qs)) + count fd (held c)
count-middle fd heap [] qs p c e =
    ap (λ (o : Option Channel). count fd (at_channel [] held o ++ all_held heap qs)) e
    ∙ (count-append fd (held c) (all_held heap qs) ∙ omega arith)
count-middle fd heap (q ∷ ps) qs p c e =
    let own = at_channel [] held (heap q) in
    rw
      (
        count-append fd own (all_held heap (ps ++ (p ∷ qs))),
        count-append fd own (all_held heap (ps ++ qs)),
        count-middle fd heap ps qs p c e,
      )
      (omega arith)

pub All-left {κ} : (P : ℕ → Type κ) (ps qs : List ℕ) → All P (ps ++ qs) → All P ps
All-left P [] qs h = tt
All-left P (p ∷ ps) qs h = (h.0, All-left P ps qs h.1)

pub AllPlain-middle :
    (heap : Heap) (ps qs : List ℕ) (p : ℕ)
    → at_channel Unit IsPlain (heap p)
    → AllPlain heap (ps ++ qs)
    → AllPlain heap (ps ++ (p ∷ qs))
AllPlain-middle heap [] qs p h hs = (h, hs)
AllPlain-middle heap (q ∷ ps) qs p h hs = (hs.0, AllPlain-middle heap ps qs p h hs.1)

-- A plain channel gives up what it holds.
closes_of-held : (c : Channel) → IsPlain c → closes_of c ≡ done (held c)
unfolding closes_of
closes_of-held c i = ground (arith, i.file)

pub freed-closed :
    (p : ℕ) (c : Channel) (w : Channels) {w' : Channels}
    → w.heap p ≡ some c
    → IsPlain c
    → free_data_channel p w ≡ done w'
    → w'.closed ≡ w.closed ++ held c
unfolding free_data_channel load
freed-closed p c w {w'} e i h =
    let (d, loaded, rest) = >>=-eq-done (load w p) _ h in
    let same : d ≡ c = ground (arith, loaded, e) in
    let (closes, f, is) = >>=-eq-done (closes_of d) _ rest in
    let given : closes ≡ held c = ground (arith, f, same, closes_of-held c i) in
    ground (arith, is, given)

pub load-some : (w : Channels) (p : ℕ) {c : Channel} → load w p ≡ done c → w.heap p ≡ some c
unfolding load
load-some w p {c} h = ground (arith, h)
