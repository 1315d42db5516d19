-- ===== src/Download/Invariant.antt =====
-- The invariant of the download pool, kept by each of its steps.
use llamacli.Prelude.{
  ℕ, ◌+◌, ◌-◌, ◌≤◌, ◌<◌, ◌≡◌, ◌∙◌, subst, List, [], ◌∷◌, ◌++◌, ◌==◌, if_intro, true, false, arith,
  All, ◌⊎◌, inl, inr, ◌↔◌, dec_lt,
}
use llamacli.Ranges.{RangeSpan, with_range}
use llamacli.Ranges.Merge.{Has, Covers, IsSpan}
use llamacli.Ranges.Complete.{Within, IsValid}
use llamacli.Ranges.Resume.{with_range-IsValid, total-with_range, Covers-with_range}
use llamacli.Download.{
  Segment, Pool, Picks, here, there, Step, take, write, finish, fail, Reach, start, next, bytes_at,
  skipped, missed,
}

abbrev pub Landed : List RangeSpan → List RangeSpan → ℕ → Type 0
Landed written missed n = Covers written n ⊎ Covers missed n

-- What holds of a segment: its range lies in the file, and the bytes from its start to the offset are
-- written or missed.
pub record IsSound (total : ℕ) (written missed : List RangeSpan) (s : Segment) : Type 0 where
  pub ok : IsSpan s.range
  pub within : Within total s.range
  pub low : s.range.start ≤ s.offset
  pub prefix : (n : ℕ) → s.range.start ≤ n → n < s.offset → Landed written missed n

abbrev pub Fits : ℕ → RangeSpan → Type 0
Fits total r = IsSpan r × Within total r

abbrev pub Runs : List Segment → ℕ → Type 0
Runs [] n = ⊥
Runs (s ∷ ss) n = Has n s.range ⊎ Runs ss n

pub record Inv (total : ℕ) (missed : List RangeSpan) (p : Pool) : Type 0 where
  pub size : p.progress.total_bytes ≡ total
  pub valid : IsValid p.progress
  pub sound : All (IsSound total p.written missed) p.running
  pub fits : All (Fits total) p.waiting
  pub on_disk : (n : ℕ) → Covers p.progress.ranges n → Landed p.written missed n
  pub accounted :
      p.failed ≡ false
      → (n : ℕ) → n < total
      → Covers p.progress.ranges n ⊎ Runs p.running n ⊎ Covers p.waiting n

All-Picks :
    (P : Segment → Type 0) {s : Segment} {all rest : List Segment}
    → Picks s all rest
    → All P all
    → P s × All P rest
All-Picks P (here rest) h = h
All-Picks P (there t m) (h, hs) = let (k, ks) = All-Picks P m hs in (k, (h, ks))

Runs-Picks :
    {s : Segment} {all rest : List Segment} (n : ℕ)
    → Picks s all rest
    → Runs all n
    → Has n s.range ⊎ Runs rest n
Runs-Picks n (here rest) h = h
Runs-Picks n (there t m) (inl h) = inr (inl h)
Runs-Picks n (there t m) (inr h) = ground (arith, Runs-Picks n m h)

Covers-left : (xs ys : List RangeSpan) (n : ℕ) → Covers xs n → Covers (xs ++ ys) n
Covers-left [] ys n h = absurd h
Covers-left (x ∷ xs) ys n (inl h) = inl h
Covers-left (x ∷ xs) ys n (inr h) = inr (Covers-left xs ys n h)

Covers-right : (xs ys : List RangeSpan) (n : ℕ) → Covers ys n → Covers (xs ++ ys) n
Covers-right [] ys n h = h
Covers-right (x ∷ xs) ys n h = inr (Covers-right xs ys n h)

Covers-bytes_at :
    (offset size n : ℕ) → offset ≤ n → n < offset + size → Covers (bytes_at offset size) n
unfolding bytes_at
Covers-bytes_at offset size n low high =
    if_intro (λ (rs : List RangeSpan). Covers rs n) (size == 0) (λ e. absurd (ground arith))
      (λ _. inl (omega arith))

module _ (new lost written missed : List RangeSpan) where
  grow : (n : ℕ) → Landed written missed n → Landed (new ++ written) (lost ++ missed) n
  grow n (inl h) = inl (Covers-right new written n h)
  grow n (inr h) = inr (Covers-right lost missed n h)

  IsSound-grow :
      (total : ℕ) (s : Segment)
      → IsSound total written missed s
      → IsSound total (new ++ written) (lost ++ missed) s
  IsSound-grow total s h = record {
    ok = h.ok;
    within = h.within;
    low = h.low;
    prefix = λ n a b. grow n (h.prefix n a b);
  }

  All-grow :
      (total : ℕ) (ss : List Segment)
      → All (IsSound total written missed) ss
      → All (IsSound total (new ++ written) (lost ++ missed)) ss
  All-grow total [] _ = tt
  All-grow total (s ∷ ss) (h, hs) = (IsSound-grow total s h, All-grow total ss hs)

fresh :
    (total : ℕ) (written missed : List RangeSpan) (r : RangeSpan)
    → Fits total r
    → IsSound total written missed (record { range = r; offset = r.start })
fresh total written missed r (ok, within) = record {
  ok = ok;
  within = within;
  low = omega arith;
  prefix = λ n a b. absurd (omega arith);
}

take-Inv :
    (total : ℕ) (lost : List RangeSpan) (p : Pool) (r : RangeSpan) (rest : List RangeSpan)
    → p.waiting ≡ r ∷ rest
    → Inv total lost p
    → Inv total lost
        (record p { waiting = rest; running = record { range = r; offset = r.start } ∷ p.running })
take-Inv total lost p r rest e v =
    let fits : All (Fits total) (r ∷ rest) = subst (All (Fits total)) e v.fits in
    record {
      size = v.size;
      valid = v.valid;
      sound = (fresh total p.written lost r fits.0, v.sound);
      fits = fits.1;
      on_disk = v.on_disk;
      accounted = λ ok n lt. moved n (
          subst (λ ws. Covers p.progress.ranges n ⊎ Runs p.running n ⊎ Covers ws n) e
            (v.accounted ok n lt));
    }
  where
    moved :
        (n : ℕ)
        → Covers p.progress.ranges n ⊎ Runs p.running n ⊎ Covers (r ∷ rest) n
        → Covers p.progress.ranges n
          ⊎ Runs (record { range = r; offset = r.start } ∷ p.running) n
          ⊎ Covers rest n
    moved n c = ground arith

advanced :
    (total : ℕ) (written lost : List RangeSpan) (s : Segment) (size stored : ℕ)
    → stored ≤ size
    → IsSound total written lost s
    → IsSound total
        (bytes_at s.offset stored ++ written)
        (bytes_at (s.offset + stored) (size - stored) ++ lost)
        (record s { offset = s.offset + size })
advanced total written lost s size stored part h = record {
  ok = h.ok;
  within = h.within;
  low = omega (arith, h.low);
  prefix = λ n a b. elim (dec_lt n s.offset) [
    | yes old ↦
        grow (bytes_at s.offset stored) (bytes_at (s.offset + stored) (size - stored)) _ _ n
          (h.prefix n a old)
    | no new ↦ elim (dec_lt n (s.offset + stored)) [
      | yes kept ↦ inl (
          Covers-left (bytes_at s.offset stored) written n
            (Covers-bytes_at s.offset stored n (omega arith) kept))
      | no gone ↦ inr (
          Covers-left (bytes_at (s.offset + stored) (size - stored)) lost n
            (Covers-bytes_at (s.offset + stored) (size - stored) n (omega arith) (omega arith)))
    ]
  ];
}

write-Inv :
    (total : ℕ) (lost : List RangeSpan) (p : Pool) (s : Segment) (rest : List Segment)
    (size stored : ℕ)
    → Picks s p.running rest
    → stored ≤ size
    → Inv total lost p
    → Inv total (bytes_at (s.offset + stored) (size - stored) ++ lost) (record p {
      running = record s { offset = s.offset + size } ∷ rest;
      written = bytes_at s.offset stored ++ p.written;
    })
write-Inv total lost p s rest size stored m part v =
    let (h, hs) = All-Picks (IsSound total p.written lost) m v.sound in
    let new = bytes_at s.offset stored in
    let gone = bytes_at (s.offset + stored) (size - stored) in
    record {
      size = v.size;
      valid = v.valid;
      sound =
          (advanced total p.written lost s size stored part h, All-grow new gone _ _ total rest hs);
      fits = v.fits;
      on_disk = λ n c. grow new gone _ _ n (v.on_disk n c);
      accounted = λ ok n lt. moved n (v.accounted ok n lt);
    }
  where
    moved :
        (n : ℕ)
        → Covers p.progress.ranges n ⊎ Runs p.running n ⊎ Covers p.waiting n
        → Covers p.progress.ranges n
          ⊎ Runs (record s { offset = s.offset + size } ∷ rest) n
          ⊎ Covers p.waiting n
    moved n c = ground (arith, Runs-Picks n m)

-- The bytes of a range whose response has ended.
ended-Landed :
    (total : ℕ) (written lost : List RangeSpan) (s : Segment) (n : ℕ)
    → IsSound total written lost s
    → Has n s.range
    → Landed written (bytes_at s.offset (s.range.end + 1 - s.offset) ++ lost) n
ended-Landed total written lost s n h inside = elim (dec_lt n s.offset) [
  | yes done ↦
      grow [] (bytes_at s.offset (s.range.end + 1 - s.offset)) _ _ n (h.prefix n inside.0 done)
  | no short ↦ inr (
      Covers-left (bytes_at s.offset (s.range.end + 1 - s.offset)) lost n
        (Covers-bytes_at s.offset (s.range.end + 1 - s.offset) n (omega arith) (omega arith)))
]

finish-Inv :
    (total : ℕ) (lost : List RangeSpan) (p : Pool) (s : Segment) (rest : List Segment) (now : ℕ)
    → Picks s p.running rest
    → Inv total lost p
    → Inv total
        (bytes_at s.offset (s.range.end + 1 - s.offset) ++ lost)
        (record p { running = rest; progress = with_range p.progress s.range now })
finish-Inv total lost p s rest now m v =
    let (h, hs) = All-Picks (IsSound total p.written lost) m v.sound in
    let inside : Within p.progress.total_bytes s.range = omega (arith, v.size, h.within) in
    let covers = λ (n : ℕ). Covers-with_range p.progress s.range now n v.valid h.ok in
    let gone = bytes_at s.offset (s.range.end + 1 - s.offset) in
    record {
      size = total-with_range p.progress s.range now ∙ v.size;
      valid = with_range-IsValid p.progress s.range now v.valid h.ok inside;
      sound = All-grow [] gone _ _ total rest hs;
      fits = v.fits;
      on_disk = λ n c. stored h n ((covers n).0 c);
      accounted = λ ok n lt. moved (covers n) (v.accounted ok n lt);
    }
  where
    stored :
        IsSound total p.written lost s
        → (n : ℕ) → Covers p.progress.ranges n ⊎ Has n s.range
        → Landed p.written (bytes_at s.offset (s.range.end + 1 - s.offset) ++ lost) n
    stored h n (inl c) =
        grow [] (bytes_at s.offset (s.range.end + 1 - s.offset)) _ _ n (v.on_disk n c)
    stored h n (inr k) = ended-Landed total p.written lost s n h k

    moved :
        {n : ℕ}
        → Covers (with_range p.progress s.range now).ranges n
          ↔ (Covers p.progress.ranges n ⊎ Has n s.range)
        → Covers p.progress.ranges n ⊎ Runs p.running n ⊎ Covers p.waiting n
        → Covers (with_range p.progress s.range now).ranges n ⊎ Runs rest n ⊎ Covers p.waiting n
    moved {n} covers c = ground (arith, Runs-Picks n m)

fail-Inv :
    (total : ℕ) (lost : List RangeSpan) (p : Pool) (s : Segment) (rest : List Segment)
    → Picks s p.running rest
    → Inv total lost p
    → Inv total lost (record p { running = rest; workers = p.workers - 1; failed = true })
fail-Inv total lost p s rest m v = record {
  size = v.size;
  valid = v.valid;
  sound = (All-Picks (IsSound total p.written lost) m v.sound).1;
  fits = v.fits;
  on_disk = v.on_disk;
  accounted = λ ok. absurd (cc ok);
}

Step-Inv :
    {total : ℕ} {lost : List RangeSpan} {p q : Pool} (st : Step p q)
    → Inv total lost p
    → Inv total (skipped st ++ lost) q
unfolding skipped
Step-Inv {total} {lost} {p} (take r rest e idle) v = take-Inv total lost p r rest e v
Step-Inv {total} {lost} {p} (write s rest size stored m part) v =
    write-Inv total lost p s rest size stored m part v
Step-Inv {total} {lost} {p} (finish s rest now m) v = finish-Inv total lost p s rest now m v
Step-Inv {total} {lost} {p} (fail s rest m) v = fail-Inv total lost p s rest m v

pub Reach-Inv :
    {total : ℕ} {p q : Pool} (run : Reach p q) → Inv total [] p → Inv total (missed run) q
unfolding missed
Reach-Inv start v = v
Reach-Inv (next r st) v = Step-Inv st (Reach-Inv r v)
