-- ===== src/Connection/Loss/Loops.antt =====
-- The two loops over the history: the one that compacts it, and the one that queues what is lost.
use quic_test.Prelude.{
  ℕ, ◌+◌, ◌%◌, ◌^◌, ◌≤◌, ◌<◌, ◌≡◌, refl, sym, ap, ap₂, ◌∙◌, inl, inr, Bool, true, false, ◌||◌, List,
  [], ◌∷◌, ◌++◌, append_assoc, arith, if◌then◌else◌, Bool-cases, if-cases, length, All, All-append,
}
use quic_test.Connection.State.{World, SentPacket, member, remove, compact_history, compact_keys}
use quic_test.Connection.Loss.{queue_lost, is_queued, after_queued}
use quic_test.Connection.Loss.History.{
  pns, outstanding, Ascending, Fits, Consistent, Ascending-weaken, Ascending-bound,
}

remove-append : (n : ℕ) (xs ys : List ℕ) → remove n (xs ++ ys) ≡ remove n xs ++ remove n ys
remove-append n [] ys = refl
remove-append n (x ∷ xs) ys = ground (arith, remove-append n xs ys)

remove-above :
    (n lo : ℕ) (ps : List SentPacket) (hi : ℕ)
    → n < lo
    → Ascending lo ps hi
    → remove n (pns ps) ≡ pns ps
remove-above n lo [] hi l h = refl
remove-above n lo (p ∷ ps) hi l (a, h) =
    ground (arith, remove-above n (p.pn + 1) ps hi (omega arith) h)

remove-below : (n lo : ℕ) (ks : List ℕ) → lo ≤ n → All (λ k. k < lo) ks → remove n ks ≡ ks
remove-below n lo [] l h = refl
remove-below n lo (k ∷ ks) l (a, h) = ground (arith, remove-below n lo ks l h)

All-weaken : (lo hi : ℕ) (ks : List ℕ) → lo ≤ hi → All (λ k. k < lo) ks → All (λ k. k < hi) ks
All-weaken lo hi [] l h = h
All-weaken lo hi (k ∷ ks) l (a, h) = (omega arith, All-weaken lo hi ks l h)

pub Ascending-compact :
    (lo : ℕ) (ps : List SentPacket) (hi : ℕ)
    → Ascending lo ps hi
    → Ascending lo (compact_history ps) hi
unfolding compact_history
Ascending-compact lo [] hi h = h
Ascending-compact lo (p ∷ ps) hi (l, h) = ground (
  arith,
  Ascending-compact (p.pn + 1) ps hi h,
  Ascending-weaken lo (p.pn + 1) (compact_history ps) hi,
)

pub Consistent-compact :
    (q : List ℕ) (ps : List SentPacket)
    → All (Consistent q) ps
    → All (Consistent q) (compact_history ps)
unfolding compact_history
Consistent-compact q [] h = h
Consistent-compact q (p ∷ ps) (h, hs) = ground (arith, Consistent-compact q ps hs)

pub outstanding-compact : (ps : List SentPacket) → outstanding (compact_history ps) ≡ outstanding ps
unfolding compact_history
outstanding-compact [] = refl
outstanding-compact (p ∷ ps) = ground (arith, outstanding-compact ps)

-- The keys that are left are the numbers of the packets that are left, behind those before.
compact_keys-behind :
    (ks : List ℕ) (lo : ℕ) (ps : List SentPacket) (hi : ℕ)
    → All (λ k. k < lo) ks
    → Ascending lo ps hi
    → compact_keys ps (ks ++ pns ps) ≡ ks ++ pns (compact_history ps)
unfolding compact_keys compact_history
compact_keys-behind ks lo [] hi b h = refl
compact_keys-behind ks lo (p ∷ ps) hi b (l, h) =
    let dropped : remove p.pn (ks ++ (p.pn ∷ pns ps)) ≡ ks ++ pns ps =
      remove-append p.pn ks (p.pn ∷ pns ps)
      ∙ ap₂ (λ (x y : List ℕ). x ++ y) (remove-below p.pn lo ks l b)
          (ground (arith, remove-above p.pn (p.pn + 1) ps hi)) in
    let longer : ks ++ (p.pn ∷ pns ps) ≡ (ks ++ (p.pn ∷ [])) ++ pns ps =
      sym (append_assoc ks (p.pn ∷ []) (pns ps)) in
    let longer1 : ks ++ (p.pn ∷ pns (compact_history ps))
        ≡ (ks ++ (p.pn ∷ [])) ++ pns (compact_history ps) =
      sym (append_assoc ks (p.pn ∷ []) (pns (compact_history ps))) in
    elim (Bool-cases p.acked) [
      | inl e ↦
          rw (e, dropped)
            (compact_keys-behind ks (p.pn + 1) ps hi (All-weaken lo (p.pn + 1) ks (omega arith) b)
              h)
      | inr e ↦
          rw (e, longer, longer1)
            (compact_keys-behind (ks ++ (p.pn ∷ [])) (p.pn + 1) ps hi
              (All-append (λ k. k < p.pn + 1) ks (p.pn ∷ [])
                (All-weaken lo (p.pn + 1) ks (omega arith) b) (omega arith, tt))
              h)
    ]

pub compact_keys-pns :
    (ps : List SentPacket) (hi : ℕ)
    → Ascending 0 ps hi
    → compact_keys ps (pns ps) ≡ pns (compact_history ps)
compact_keys-pns ps hi h = compact_keys-behind [] 0 ps hi tt h

Consistent-cons :
    (n lo : ℕ) (q : List ℕ) (ps : List SentPacket) (hi : ℕ)
    → n < lo
    → Ascending lo ps hi
    → All (Consistent q) ps
    → All (Consistent (n ∷ q)) ps
Consistent-cons n lo q [] hi l a h = h
Consistent-cons n lo q (p ∷ ps) hi l (b, a) (h, hs) =
    ground (arith, Consistent-cons n (p.pn + 1) q ps hi (omega arith) a hs)

-- The packets of the queue have numbers from `lo` and below `hi`.
abbrev pub Within : ℕ → ℕ → List SentPacket → Type 0
Within lo hi q = All (λ (p : SentPacket). (lo ≤ p.pn) × (p.pn < hi) × Fits p) q

member-Within :
    (n lo hi : ℕ) (q : List SentPacket) → n < lo → Within lo hi q → member n (pns q) ≡ false
member-Within n lo hi [] l h = refl
member-Within n lo hi (p ∷ ps) l (b, h) = ground (arith, member-Within n lo hi ps l h)

Within-weaken : (lo lo1 hi : ℕ) (q : List SentPacket) → lo ≤ lo1 → Within lo1 hi q → Within lo hi q
Within-weaken lo lo1 hi [] l h = h
Within-weaken lo lo1 hi (p ∷ ps) l (b, h) =
    ((omega arith, b.1, b.2), Within-weaken lo lo1 hi ps l h)

Ascending-above : {n : ℕ} (ps : List SentPacket) {hi : ℕ} → Ascending (n + 1) ps hi → n < hi
Ascending-above {n} ps {hi} h = omega (arith, Ascending-bound (n + 1) ps hi h)

-- What the loop that queues does to a history in which nothing waits, from `lo` on: `others` is the
-- flight that it leaves alone.
module _ {S : Type 0} (w : World S) where
  pub record Queued (lo hi others : ℕ) (ps : List SentPacket)
      (r : List SentPacket × List SentPacket × S) : Type 0 where
    pub numbers : pns r.0 ≡ pns ps
    pub ascending : Ascending lo r.0 hi
    pub packets : All (Consistent (pns r.1)) r.0
    pub queue : Within lo hi r.1
    pub flight : w.cc.bytes_in_flight r.2 ≡ (others + outstanding r.0) % 2 ^ 64
    pub most : length r.1 ≤ length ps

  abbrev own : SentPacket → ℕ
  own p = if p.acked || p.lost then 0 else p.data_len

  cons-Queued :
      (lo hi others : ℕ) (p : SentPacket) (ps : List SentPacket)
      (r : List SentPacket × List SentPacket × S)
      → lo ≤ p.pn
      → Consistent [] p
      → Queued (p.pn + 1) hi others ps r
      → Queued lo hi others (p ∷ ps) (
        record p { retransmitted = true; lost = true } ∷ r.0,
        record p { retransmitted = true } ∷ r.1,
        r.2,
      )
  cons-Queued lo hi others p ps r l c q = record {
    numbers = ap (λ z. p.pn ∷ z) q.numbers;
    ascending = (l, q.ascending);
    packets = (
      (c.0, inr (ground arith)),
      Consistent-cons p.pn (p.pn + 1) (pns r.1) r.0 hi (omega arith) q.ascending q.packets,
    );
    queue = (
      (l, Ascending-above r.0 q.ascending, c.0),
      Within-weaken lo (p.pn + 1) hi r.1 (omega arith) q.queue,
    );
    flight = ground (arith, q.flight);
    most = omega (arith, q.most);
  }

  cons-kept :
      (lo hi others : ℕ) (p : SentPacket) (ps : List SentPacket)
      (r : List SentPacket × List SentPacket × S)
      → lo ≤ p.pn
      → Consistent [] p
      → Queued (p.pn + 1) hi (others + own p) ps r
      → Queued lo hi others (p ∷ ps) (p ∷ r.0, r.1, r.2)
  cons-kept lo hi others p ps r l c q = record {
    numbers = ap (λ z. p.pn ∷ z) q.numbers;
    ascending = (l, q.ascending);
    packets = (
      (c.0, ground (arith, member-Within p.pn (p.pn + 1) hi r.1 (omega arith) q.queue)),
      q.packets,
    );
    queue = Within-weaken lo (p.pn + 1) hi r.1 (omega arith) q.queue;
    flight = ground (arith, q.flight);
    most = omega (arith, q.most);
  }

module _ {S : Type 0} (w : World S) (test : SentPacket → Bool) (on_lost : S → SentPacket → S)
    (same : (s : S) (p : SentPacket)
      → w.cc.bytes_in_flight (on_lost s p) ≡ w.cc.bytes_in_flight s) where
  discarded :
      (s : S) (p : SentPacket) (rest : ℕ)
      → p.data_len ≤ 1452
      → p.lost ≡ false
      → w.cc.bytes_in_flight s ≡ (p.data_len + rest) % 2 ^ 64
      → w.cc.bytes_in_flight (after_queued w test on_lost s p) ≡ rest % 2 ^ 64
  discarded s p rest l u e =
      if-cases (λ (t : S). w.cc.bytes_in_flight t ≡ rest % 2 ^ 64) p.lost
        (λ t. absurd (ground arith))
        (λ t. w.cc.flight-discarded (on_lost s p) p.data_len ∙ rw (same s p, e) (omega arith))

  pub queue_lost-Queued :
      (lo : ℕ) (ps : List SentPacket) (hi : ℕ) (s : S) (others : ℕ)
      → Ascending lo ps hi
      → All (Consistent []) ps
      → w.cc.bytes_in_flight s ≡ (others + outstanding ps) % 2 ^ 64
      → Queued w lo hi others ps (queue_lost w test on_lost ps s)
  unfolding queue_lost
  queue_lost-Queued lo [] hi s others a c e = record {
    numbers = refl;
    ascending = a;
    packets = tt;
    queue = tt;
    flight = e;
    most = omega arith;
  }
  queue_lost-Queued lo (p ∷ ps) hi s others (l, a) (c, cs) e =
      if-cases (λ (r : List SentPacket × List SentPacket × S). Queued w lo hi others (p ∷ ps) r)
        (is_queued w test on_lost p)
        (λ t. cons-Queued w lo hi others p ps _ l c (
          queue_lost-Queued (p.pn + 1) ps hi (after_queued w test on_lost s p) others a cs
            (discarded s p (others + outstanding ps) c.0.0 (ground arith) (ground (arith, e)))))
        (λ t.
          cons-kept w lo hi others p ps _ l c
            (queue_lost-Queued (p.pn + 1) ps hi s (others + own w p) a cs (ground (arith, e))))
