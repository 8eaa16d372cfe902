-- ===== src/Inbox/Delivery/Replay.antt =====
-- Projecting again from a projected state, with the facts that were there and new ones, is the same
-- as projecting all of them at once: `correlateStatus` may run after every fact.
use whats.Base.{
  ◌≤◌, ◌<◌, ◌≡◌, refl, sym, ap, inl, inr, Bool, true, false, List, [], ◌∷◌, ◌++◌, arith, All, leb,
  Bool-cases, ◌&&◌, ◌||◌,
}
use whats.Inbox.Delivery.{
  DeliveryState, unknown_conflict, Status, Scan, rank, fact_rank, scan_fact, scan, start, verdict,
  delivery_projection, is_failed, is_unknown,
}
use whats.Inbox.Delivery.Laws.{Covered, scan_fact-Covered, scan-Covered}

scan-append : (s : Scan) (fs gs : List Status) → scan s (fs ++ gs) ≡ scan (scan s fs) gs
unfolding scan
scan-append s [] gs = refl
scan-append s (f ∷ fs) gs = scan-append (scan_fact s f) fs gs

-- A fact that a scan has taken in.
record IsTaken (s : Scan) (f : Status) : Type 0 where
  lower : fact_rank f ≤ rank s.best
  failed : is_failed f ≡ true → s.failed ≡ true
  unknown : is_unknown f ≡ true → s.unknown ≡ true

IsTaken-Covered : (s t : Scan) (f : Status) → Covered s t → IsTaken s f → IsTaken t f
IsTaken-Covered s t f c h = ground arith

scan_fact-IsTaken : (s : Scan) (f : Status) → IsTaken (scan_fact s f) f
unfolding scan_fact
scan_fact-IsTaken s f = ground arith

scan-IsTaken : (s : Scan) (fs : List Status) → All (IsTaken (scan s fs)) fs
unfolding scan
scan-IsTaken s [] = tt
scan-IsTaken s (f ∷ fs) = (
  IsTaken-Covered (scan_fact s f) (scan (scan_fact s f) fs) f (scan-Covered (scan_fact s f) fs)
      (scan_fact-IsTaken s f),
  scan-IsTaken (scan_fact s f) fs,
)

scan_fact-absorb : (s : Scan) (f : Status) → IsTaken s f → scan_fact s f ≡ s
unfolding scan_fact
scan_fact-absorb s f h = ground arith

scan-absorb : (s : Scan) (fs : List Status) → All (IsTaken s) fs → scan s fs ≡ s
unfolding scan
scan-absorb s [] h = refl
scan-absorb s (f ∷ fs) (taken, h) = rw (scan_fact-absorb s f taken) (scan-absorb s fs h)

-- A failed or undecided message that no later fact can bring back.
abbrev is_conflict : Scan → Bool
is_conflict s = s.unknown || (s.failed && leb 3 (rank s.best))

-- Two scans that give the same verdict, and go on to do so.
data Alike (s t : Scan) : Type 0 where
  same : s ≡ t → Alike s t
  both_conflict : is_conflict s ≡ true → is_conflict t ≡ true → Alike s t
  both_failed :
      s.failed ≡ true
      → t.failed ≡ true
      → s.unknown ≡ false
      → t.unknown ≡ false
      → rank s.best < 3
      → rank t.best < 3
      → Alike s t

verdict-Alike : (s t : Scan) → Alike s t → verdict s ≡ verdict t
unfolding verdict
verdict-Alike s t (same e) = rw e
verdict-Alike s t (both_conflict a b) = ground arith
verdict-Alike s t (both_failed a b c d e f) = ground arith

scan_fact-Alike : (s t : Scan) (f : Status) → Alike s t → Alike (scan_fact s f) (scan_fact t f)
scan_fact-Alike s t f (same e) = same (ap (λ u. scan_fact u f) e)
scan_fact-Alike s t f (both_conflict a b) =
    both_conflict (ground (arith, scan_fact-Covered s f)) (ground (arith, scan_fact-Covered t f))
scan_fact-Alike s t f (both_failed a b c d e g) =
    elim (Bool-cases (is_unknown f || leb 3 (fact_rank f))) [
      | inl ends ↦
          both_conflict (unfold scan_fact in ground arith) (unfold scan_fact in ground arith)
      | inr goes_on ↦
          both_failed (unfold scan_fact in ground arith) (unfold scan_fact in ground arith)
            (unfold scan_fact in ground arith) (unfold scan_fact in ground arith)
            (unfold scan_fact in ground arith) (unfold scan_fact in ground arith)
    ]

scan-Alike : (s t : Scan) (fs : List Status) → Alike s t → Alike (scan s fs) (scan t fs)
unfolding scan
scan-Alike s t [] h = h
scan-Alike s t (f ∷ fs) h = scan-Alike (scan_fact s f) (scan_fact t f) fs (scan_fact-Alike s t f h)

-- A scan from a failed message over facts that leave another scan failed.
scan-Low :
    (s t : Scan) (fs : List Status)
    → All (IsTaken s) fs
    → s.unknown ≡ false
    → rank s.best < 3
    → t.failed ≡ true
    → t.unknown ≡ false
    → rank t.best < 3
    → (((scan t fs).failed ≡ true) × ((scan t fs).unknown ≡ false) × (rank (scan t fs).best < 3))
unfolding scan
scan-Low s t [] h a b c d e = (c, d, e)
scan-Low s t (f ∷ fs) (taken, h) a b c d e =
    scan-Low s (scan_fact t f) fs h a b (unfold scan_fact in ground arith)
      (unfold scan_fact in ground arith) (unfold scan_fact in ground arith)

-- The state that a scan has best tells no more than its flags.
record IsMarked (s : Scan) : Type 0 where
  failed : s.best ≡ DeliveryState.failed → s.failed ≡ true
  unknown : s.best ≡ unknown_conflict → s.unknown ≡ true

start-IsMarked : (current : DeliveryState) → IsMarked (start current)
unfolding start
start-IsMarked current = ground arith

scan-IsMarked : (s : Scan) (fs : List Status) → IsMarked s → IsMarked (scan s fs)
unfolding scan
scan-IsMarked s [] h = h
scan-IsMarked s (f ∷ fs) h = scan-IsMarked (scan_fact s f) fs (unfold scan_fact in ground arith)

-- A scan whose verdict is its best state starts again as itself.
start_best : (s : Scan) → IsMarked s → s.failed ≡ false → s.unknown ≡ false → start s.best ≡ s
unfolding start
start_best s m a b = ground arith

conflict-scan : (fs : List Status) → is_conflict (scan (start unknown_conflict) fs) ≡ true
unfolding start
conflict-scan fs = ground (arith, scan-Covered (start unknown_conflict) fs)

start-verdict-Alike :
    (s : Scan) (fs : List Status)
    → All (IsTaken s) fs
    → IsMarked s
    → Alike s (scan (start (verdict s)) fs)
start-verdict-Alike s fs h m = elim (Bool-cases (is_conflict s)) [
  | inl conflict ↦
      let e : verdict s ≡ unknown_conflict = unfold verdict in ground arith in
      both_conflict conflict (rw e (conflict-scan fs))
  | inr open_yet ↦ elim (Bool-cases s.failed) [
    | inl failed ↦
        let e : verdict s ≡ DeliveryState.failed = unfold verdict in ground arith in
        let (a, b, c) =
          scan-Low s (start DeliveryState.failed) fs h (ground arith) (ground arith)
            (unfold start in refl) (unfold start in refl) (unfold start rank in omega arith) in
        rw e (both_failed failed a (ground arith) b (ground arith) c)
    | inr fine ↦
        let e : verdict s ≡ s.best = unfold verdict in ground arith in
        same (sym (rw (e, start_best s m fine (ground arith)) (scan-absorb s fs h)))
  ]
]

-- Projecting from the state that some facts have led to, with those facts and new ones, is
-- projecting all of them from the first state.
pub delivery_projection-replay :
    (current : DeliveryState) (fs gs : List Status)
    → delivery_projection (delivery_projection current fs) (fs ++ gs)
      ≡ delivery_projection current (fs ++ gs)
unfolding delivery_projection
delivery_projection-replay current fs gs =
    let s = scan (start current) fs in
    let alike =
      start-verdict-Alike s fs (scan-IsTaken (start current) fs)
        (scan-IsMarked (start current) fs (start-IsMarked current)) in
    rw (scan-append (start (verdict s)) fs gs, scan-append (start current) fs gs)
      (sym (
        verdict-Alike (scan s gs) (scan (scan (start (verdict s)) fs) gs)
          (scan-Alike s (scan (start (verdict s)) fs) gs alike)))
