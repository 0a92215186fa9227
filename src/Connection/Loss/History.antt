-- ===== src/Connection/Loss/History.antt =====
-- The history of sent packets: its order, what is outstanding in it, and how the loops change it.
use quic_test.Prelude.{
  ℕ, ◌+◌, ◌^◌, ◌≤◌, ◌<◌, ◌≡◌, refl, ap, ◌⊎◌, true, false, ◌||◌, some, List, [], ◌∷◌, ◌++◌, arith,
  if◌then◌else◌, All,
}
use quic_test.Protocol.PacketNumber.{packet_number_length_for_header}
use quic_test.Connection.State.{SentPacket, member, find_packet, mark_acked, acknowledge}

abbrev pub pns : List SentPacket → List ℕ
pns [] = []
pns (p ∷ ps) = p.pn ∷ pns ps

-- The bytes of the packets that are neither acknowledged nor lost.
abbrev pub outstanding : List SentPacket → ℕ
outstanding [] = 0
outstanding (p ∷ ps) = (if p.acked || p.lost then 0 else p.data_len) + outstanding ps

-- The numbers ascend, from `lo` and below `hi`.
abbrev pub Ascending : ℕ → List SentPacket → ℕ → Type 0
Ascending lo [] hi = lo ≤ hi
Ascending lo (p ∷ ps) hi = (lo ≤ p.pn) × Ascending (p.pn + 1) ps hi

-- A packet fits the array that keeps it, also with a number of 4 bytes.
abbrev pub Fits : SentPacket → Type 0
Fits p = (p.data_len ≤ 1452) × (p.data_len + 4 ≤ 1452 + packet_number_length_for_header p.pn 0)

-- A packet is acknowledged, or it is lost just when its number is in the queue.
abbrev pub Consistent : List ℕ → SentPacket → Type 0
Consistent q p = Fits p × ((p.acked ≡ true) ⊎ (p.lost ≡ member p.pn q))

pub Ascending-weaken :
    (lo lo1 : ℕ) (ps : List SentPacket) (hi : ℕ)
    → lo ≤ lo1
    → Ascending lo1 ps hi
    → Ascending lo ps hi
Ascending-weaken lo lo1 [] hi l h = omega arith
Ascending-weaken lo lo1 (p ∷ ps) hi l (a, h) = (omega arith, h)

pub Ascending-bound : (lo : ℕ) (ps : List SentPacket) (hi : ℕ) → Ascending lo ps hi → lo ≤ hi
Ascending-bound lo [] hi h = h
Ascending-bound lo (p ∷ ps) hi (a, h) = let b = Ascending-bound (p.pn + 1) ps hi h in omega arith

pub Ascending-append :
    (lo : ℕ) (ps : List SentPacket) (hi : ℕ) (p : SentPacket)
    → p.pn ≡ hi
    → Ascending lo ps hi
    → Ascending lo (ps ++ (p ∷ [])) (hi + 1)
Ascending-append lo [] hi p e h = (omega arith, omega arith)
Ascending-append lo (x ∷ ps) hi p e (a, h) = (a, Ascending-append (x.pn + 1) ps hi p e h)

pub pns-append :
    (ps : List SentPacket) (p : SentPacket) → pns (ps ++ (p ∷ [])) ≡ pns ps ++ (p.pn ∷ [])
pns-append [] p = refl
pns-append (x ∷ ps) p = ap (λ t. x.pn ∷ t) (pns-append ps p)

pub outstanding-append :
    (ps : List SentPacket) (p : SentPacket)
    → outstanding (ps ++ (p ∷ [])) ≡ outstanding ps + (if p.acked || p.lost then 0 else p.data_len)
outstanding-append [] p = omega arith
outstanding-append (x ∷ ps) p = omega (arith, outstanding-append ps p)

-- A mark changes neither the numbers nor their order.
module _ (n : ℕ) where
  pub pns-mark : (ps : List SentPacket) → pns (mark_acked n ps) ≡ pns ps
  pns-mark [] = refl
  pns-mark (p ∷ ps) = ground (arith, pns-mark ps)

  pub Ascending-mark :
      (lo : ℕ) (ps : List SentPacket) (hi : ℕ)
      → Ascending lo ps hi
      → Ascending lo (mark_acked n ps) hi
  Ascending-mark lo [] hi h = h
  Ascending-mark lo (p ∷ ps) hi (a, h) = ground (arith, Ascending-mark (p.pn + 1) ps hi h)

  pub mark-absent : (ps : List SentPacket) → member n (pns ps) ≡ false → mark_acked n ps ≡ ps
  mark-absent [] h = refl
  mark-absent (p ∷ ps) h = ground (arith, mark-absent ps)

  member-below :
      (lo : ℕ) (ps : List SentPacket) (hi : ℕ)
      → n < lo
      → Ascending lo ps hi
      → member n (pns ps) ≡ false
  member-below lo [] hi l h = refl
  member-below lo (p ∷ ps) hi l (a, h) =
      ground (arith, member-below (p.pn + 1) ps hi (omega arith) h)

  -- The pointers of the map go to the packets of the history.
  pub acknowledge-mark : (ps : List SentPacket) → acknowledge (pns ps) n ps ≡ mark_acked n ps
  acknowledge-mark ps = ground (arith, mark-absent ps)

  pub Consistent-mark :
      (q : List ℕ) (ps : List SentPacket)
      → All (Consistent q) ps
      → All (Consistent q) (mark_acked n ps)
  Consistent-mark q [] h = h
  Consistent-mark q (p ∷ ps) (h, hs) = ground (arith, Consistent-mark q ps hs)

  -- An acknowledged number leaves the queue.
  pub Consistent-mark_head :
      (q : List ℕ) (ps : List SentPacket)
      → All (Consistent (n ∷ q)) ps
      → All (Consistent q) (mark_acked n ps)
  Consistent-mark_head q [] h = h
  Consistent-mark_head q (p ∷ ps) (h, hs) = ground (arith, Consistent-mark_head q ps hs)

  pub outstanding-mark_lost :
      (q : List ℕ) (ps : List SentPacket)
      → All (Consistent (n ∷ q)) ps
      → outstanding (mark_acked n ps) ≡ outstanding ps
  outstanding-mark_lost q [] h = refl
  outstanding-mark_lost q (p ∷ ps) (h, hs) = ground (arith, outstanding-mark_lost q ps hs)

  -- A packet that is acknowledged for the first time was outstanding.
  pub outstanding-mark :
      (lo : ℕ) (ps : List SentPacket) (hi : ℕ) (p : SentPacket)
      → Ascending lo ps hi
      → All (Consistent []) ps
      → find_packet n ps ≡ some p
      → p.acked ≡ false
      → (outstanding ps ≡ p.data_len + outstanding (mark_acked n ps)) × (p.data_len < 2 ^ 64)
  outstanding-mark lo [] hi p a c e f = absurd (ground arith)
  outstanding-mark lo (x ∷ ps) hi p (l, a) (c, cs) e f = ground (
    arith,
    mark-absent ps,
    member-below (x.pn + 1) ps hi,
    outstanding-mark (x.pn + 1) ps hi p a cs,
  )
