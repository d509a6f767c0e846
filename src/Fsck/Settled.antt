-- ===== src/Fsck/Settled.antt =====
-- What the questions of `pass5` on a group leave when all are answered with yes.
use ext2fs.Base.{
  ℕ, ◌-◌, ◌/◌, ◌^◌, ◌<◌, ◌≡◌, ◌≢◌, inl, inr, refl, sym, ◌∙◌, ap, Bool, true, false, List, [], ◌∷◌,
  arith, Bool-cases,
}
use ext2fs.Geometry.{Geometry}
use ext2fs.Fsck.{
  device, FixState, dontknow, nofix, fix, Question, summary, blocks_missing, inodes_missing, Image,
  Found, Tally, dofix, differ, pad, miscounted, put_counts, put_map, ask, settle,
}

pub differ_lem : (xs ys : List ℕ) → differ xs ys ≡ false → xs ≡ ys
unfolding differ
differ_lem [] [] e = refl
differ_lem [] (y ∷ ys) e = absurd (ground (arith, e))
differ_lem (x ∷ xs) [] e = absurd (ground (arith, e))
differ_lem (x ∷ xs) (y ∷ ys) e =
    let same : x ≡ y = ground (arith, e) in
    let rest : differ xs ys ≡ false = ground (arith, e) in rw (same, differ_lem xs ys rest) refl

module _ (g : Geometry) (f : Found) (yes_to : (q : Question) → f.answer q ≡ true) where
  -- A question that is put is answered with yes, and its `idesc` never says no.
  pub ask_lem :
      (b : Bool) (x : FixState) (q : Question)
      → x ≢ nofix
      → ((ask g f b x q).0 ≡ b) × ((ask g f b x q).1 ≢ nofix)
  unfolding dofix
  ask_lem false x q h = (refl, h)
  ask_lem true dontknow q h = rw (yes_to q) (refl, λ e. cc)
  ask_lem true nofix q h = absurd (h refl)
  ask_lem true fix q h = (refl, h)

  module _ (c : ℕ) (b i : Tally) (v : Image) where
    abbrev b_blk : ℕ
    b_blk = device g (v.gd c).b_bitmap

    abbrev i_blk : ℕ
    i_blk = device g (v.gd c).i_bitmap

    -- The descriptor and the two maps of the group are the counted ones, and nothing else changed.
    pub record Settled (v' : Image) : Type 0 where
      pub nbfree : (v'.gd c).nbfree ≡ b.nfree
      pub nifree : (v'.gd c).nifree ≡ i.nfree
      pub ndirs : (v'.gd c).ndirs ≡ i.ndirs
      pub b_bitmap : (a : ℕ) → (v'.gd a).b_bitmap ≡ (v.gd a).b_bitmap
      pub i_bitmap : (a : ℕ) → (v'.gd a).i_bitmap ≡ (v.gd a).i_bitmap
      pub others : (a : ℕ) → a ≢ c → v'.gd a ≡ v.gd a
      pub b_map : v'.disk (device g (v.gd c).b_bitmap) ≡ b.map
      pub i_map : v'.disk (device g (v.gd c).i_bitmap) ≡ pad g f i.map (g.bsize - g.ipg / 8)
      pub disk :
          (blk : ℕ)
          → blk ≢ device g (v.gd c).b_bitmap
          → blk ≢ device g (v.gd c).i_bitmap
          → v'.disk blk ≡ v.disk blk

    put_counts-gd :
        (small : b.nfree < 2 ^ 16)
        → i.nfree < 2 ^ 16
        → i.ndirs < 2 ^ 16
        → let v' = put_counts g f (miscounted g f (v.gd c) b.nfree i.nfree i.ndirs) c b i v in
          ((v'.gd c).nbfree ≡ b.nfree) × ((v'.gd c).nifree ≡ i.nfree) × ((v'.gd c).ndirs ≡ i.ndirs)
    put_counts-gd k l m = elim (Bool-cases (miscounted g f (v.gd c) b.nfree i.nfree i.ndirs)) [
      | inl off ↦ rw off (ground (arith, k), ground (arith, l), ground (arith, m))
      | inr right ↦ rw right (ground (arith, right), ground (arith, right), ground (arith, right))
    ]

    put_counts-fields :
        (u : Bool) (a : ℕ)
        → (((put_counts g f u c b i v).gd a).b_bitmap ≡ (v.gd a).b_bitmap)
          × (((put_counts g f u c b i v).gd a).i_bitmap ≡ (v.gd a).i_bitmap)
          × (a ≢ c → (put_counts g f u c b i v).gd a ≡ v.gd a)
          × ((put_counts g f u c b i v).disk ≡ v.disk)
    put_counts-fields false a = (refl, refl, (λ h. refl), refl)
    put_counts-fields true a = (ground arith, ground arith, (λ h. ground (arith, h)), refl)

    -- A map that is written where it differs is there.
    put_map-there :
        (blk : ℕ) (map : List ℕ) (w : Image) (old : List ℕ)
        → w.disk blk ≡ old
        → (put_map g f (differ old map) blk map w).disk blk ≡ map
    put_map-there blk map w old e = elim (Bool-cases (differ old map)) [
      | inl off ↦ rw off (ground arith)
      | inr same ↦ rw same (e ∙ differ_lem old map same)
    ]

    put_map-other :
        (u : Bool) (blk other : ℕ) (map : List ℕ) (w : Image)
        → other ≢ blk
        → (put_map g f u blk map w).disk other ≡ w.disk other
    put_map-other false blk other map w h = refl
    put_map-other true blk other map w h = ground (arith, h)

    put_map-gd :
        (u : Bool) (blk : ℕ) (map : List ℕ) (w : Image) → (put_map g f u blk map w).gd ≡ w.gd
    put_map-gd false blk map w = refl
    put_map-gd true blk map w = refl

    -- The volume after the questions.
    abbrev asked : Image
    asked =
        let imap = pad g f i.map (g.bsize - g.ipg / 8) in
        put_map g f (differ (v.disk i_blk) imap) i_blk imap (
          put_map g f (differ (v.disk b_blk) b.map) b_blk b.map
            (put_counts g f (miscounted g f (v.gd c) b.nfree i.nfree i.ndirs) c b i v))

    asked-Settled :
        b.nfree < 2 ^ 16 → i.nfree < 2 ^ 16 → i.ndirs < 2 ^ 16 → b_blk ≢ i_blk → Settled asked
    asked-Settled k l m apart =
        let imap = pad g f i.map (g.bsize - g.ipg / 8) in
        let u1 = miscounted g f (v.gd c) b.nfree i.nfree i.ndirs in
        let u2 = differ (v.disk b_blk) b.map in
        let u3 = differ (v.disk i_blk) imap in
        let w1 = put_counts g f u1 c b i v in
        let w2 = put_map g f u2 b_blk b.map w1 in
        let kept : asked.gd ≡ w1.gd = put_map-gd u3 i_blk imap w2 ∙ put_map-gd u2 b_blk b.map w1 in
        let same : w1.disk ≡ v.disk = (put_counts-fields u1 c).3 in
        record {
          nbfree = rw kept (put_counts-gd k l m).0;
          nifree = rw kept (put_counts-gd k l m).1;
          ndirs = rw kept (put_counts-gd k l m).2;
          b_bitmap = λ a. rw kept (put_counts-fields u1 a).0;
          i_bitmap = λ a. rw kept (put_counts-fields u1 a).1;
          others = λ a h. rw kept ((put_counts-fields u1 a).2 h);
          b_map =
              put_map-other u3 i_blk b_blk imap w2 apart
              ∙ put_map-there b_blk b.map w1 (v.disk b_blk) (ap (λ d. d b_blk) same);
          i_map =
              put_map-there i_blk imap w2 (v.disk i_blk) (
                put_map-other u2 b_blk i_blk b.map w1 (λ e. apart (sym e))
                ∙ ap (λ d. d i_blk) same);
          disk = λ blk h h'.
              put_map-other u3 i_blk blk imap w2 h'
              ∙ (put_map-other u2 b_blk blk b.map w1 h ∙ ap (λ d. d blk) same);
        }

    pub settle-Settled :
        b.nfree < 2 ^ 16
        → i.nfree < 2 ^ 16
        → i.ndirs < 2 ^ 16
        → device g (v.gd c).b_bitmap ≢ device g (v.gd c).i_bitmap
        → Settled (settle g f c b i v).0 × ((settle g f c b i v).1 ≢ nofix)
    unfolding settle
    settle-Settled k l m apart =
        let start : dontknow ≢ nofix = λ e. cc in
        let imap = pad g f i.map (g.bsize - g.ipg / 8) in
        let (counts, idesc) =
          ask_lem (miscounted g f (v.gd c) b.nfree i.nfree i.ndirs) dontknow (summary c) start in
        let (blocks, second) =
          ask_lem (differ (v.disk b_blk) b.map) dontknow (blocks_missing c) start in
        let (inodes, third) = ask_lem (differ (v.disk i_blk) imap) _ (inodes_missing c) second in
        (rw (counts, blocks, inodes) (asked-Settled k l m apart), idesc)
