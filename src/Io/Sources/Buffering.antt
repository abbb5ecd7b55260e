-- ===== src/Io/Sources/Buffering.antt =====
-- BufferedSource of Buffered.hpp as a source: what is to come from it is what the buffer still holds
-- and what is to come from the source behind it.
use uefipp.Base.{
  ℕ, zero, suc, ◌+◌, ◌-◌, ◌≤◌, ◌≡◌, inl, inr, refl, sym, ap, ◌∙◌, Bool, true, false, Bool-cases,
  List, [], ◌∷◌, ◌++◌, append_assoc, length-take, take-append-drop, length, take, drop, min,
  Expected-cases, Expected, value, unexpected, arith, ◌&&◌, ◌==◌,
}
use uefipp.Io.{Error}
use uefipp.Io.Sources.{Chunk, Gives, BufferedSource, fill, deliver, buffered_read_some}

-- What is to come from a buffered source.
abbrev pub ahead {ℓ} : {S : Type ℓ} → (S → List ℕ) → BufferedSource S → List ℕ
ahead coming b = drop b.position b.buffer ++ coming b.source

-- The source is good, the position is within the buffer and the buffer within its capacity, and if
-- the source has said that the input has ended, nothing is to come from it.
pub record Sane {ℓ} {S : Type ℓ} (coming : S → List ℕ) (Good : S → Type 0) (capacity : ℕ)
    (b : BufferedSource S) : Type 0 where
  pub good : Good b.source
  pub inside : b.position ≤ length b.buffer
  pub room : length b.buffer ≤ capacity
  pub last : b.ended ≡ true → coming b.source ≡ []

drop-add : (n k : ℕ) (xs : List ℕ) → drop (n + k) xs ≡ drop k (drop n xs)
drop-add zero k xs = let same : 0 + k ≡ k = omega arith in rw same
drop-add (suc n) zero [] = let same : suc n + 0 ≡ suc n = omega arith in rw same
drop-add (suc n) (suc k) [] = let more : suc n + suc k ≡ suc (n + suc k) = omega arith in rw more
drop-add (suc n) k (x ∷ xs) =
    let more : suc n + k ≡ suc (n + k) = omega arith in rw more (drop-add n k xs)

pub drop_all : (n : ℕ) (xs : List ℕ) → n ≡ length xs → drop n xs ≡ []
drop_all zero [] h = refl
drop_all zero (x ∷ xs) h = absurd (omega arith)
drop_all (suc n) [] h = refl
drop_all (suc n) (x ∷ xs) h = drop_all n xs (omega arith)

-- How a read can end.
data Read {ℓ} {S : Type ℓ} (coming : S → List ℕ) (Good : S → Type 0) (capacity : ℕ)
    (b : BufferedSource S) (size : ℕ) : BufferedSource S × Expected Error Chunk → Type ℓ where
  gave :
      (b' : BufferedSource S) (bytes : List ℕ) (at_end : Bool)
      → length bytes ≤ size
      → ahead coming b ≡ bytes ++ ahead coming b'
      → (at_end ≡ true → ahead coming b' ≡ [])
      → Sane coming Good capacity b'
      → Read coming Good capacity b size (b', value (bytes, at_end))
  refused :
      (b' : BufferedSource S) (e : Error)
      → ahead coming b' ≡ ahead coming b
      → Sane coming Good capacity b'
      → Read coming Good capacity b size (b', unexpected e)

from {ℓ} :
    {S : Type ℓ} {coming : S → List ℕ} {Good : S → Type 0} {capacity size : ℕ}
    {b c : BufferedSource S} {r : BufferedSource S × Expected Error Chunk}
    → ahead coming c ≡ ahead coming b
    → Read coming Good capacity c size r
    → Read coming Good capacity b size r
from same (Read.gave b' bytes at_end few first last sane) =
    Read.gave b' bytes at_end few (sym same ∙ first) last sane
from same (Read.refused b' e kept sane) = Read.refused b' e (kept ∙ same) sane

module _ {ℓ} {S : Type ℓ} (read_some : S → ℕ → S × Expected Error Chunk) (coming : S → List ℕ)
    (Good : S → Type 0) (gives : Gives read_some coming Good) (capacity : ℕ) where
  -- Filling an exhausted buffer changes nothing of what is to come.
  fill-Sane :
      (b : BufferedSource S)
      → Sane coming Good capacity b
      → b.position ≡ length b.buffer
      → Sane coming Good capacity (fill read_some capacity b).0
        × (ahead coming (fill read_some capacity b).0 ≡ ahead coming b)
  unfolding fill
  fill-Sane b s e =
      let gone : ahead coming b ≡ coming b.source =
        ap (λ (t : List ℕ). t ++ coming b.source) (drop_all b.position b.buffer e) in
      elim (Bool-cases b.ended) [
        | inl y ↦
            rw (y, fill)
              (
                record {
                  good = s.good;
                  inside = omega arith;
                  room = omega arith;
                  last = λ h. s.last y;
                },
                sym gone,
              )
        | inr n ↦ elim (Expected-cases (read_some b.source capacity).1) [
          | inl ((bytes, at_end), y) ↦
              let (few, first, last) = gives.gives b.source capacity bytes at_end (s.good) y in
              rw (n, y, fill)
                (
                  record {
                    good = gives.stays b.source capacity (s.good);
                    inside = omega arith;
                    room = few;
                    last = last;
                  },
                  sym (gone ∙ first),
                )
          | inr (err, y) ↦
              rw (n, y, fill)
                (
                  record {
                    good = gives.stays b.source capacity (s.good);
                    inside = omega arith;
                    room = omega arith;
                    last = λ h. cc;
                  },
                  gives.refuses b.source capacity err (s.good) y ∙ sym gone,
                )
        ]
      ]

  deliver-Read :
      (b : BufferedSource S) (size : ℕ)
      → Sane coming Good capacity b
      → Read coming Good capacity b size (deliver read_some capacity b size)
  unfolding deliver
  deliver-Read b size s =
      let count : ℕ = min size (length b.buffer - b.position) in
      let inside = s.inside in
      let rest : drop (b.position + count) b.buffer ≡ drop count (drop b.position b.buffer) =
        drop-add b.position count b.buffer in
      Read.gave _ (take count (drop b.position b.buffer))
        (b.ended && b.position + count == length b.buffer)
        (omega (arith, length-take count (drop b.position b.buffer)))
        (sym (
          ap (λ (t : List ℕ). take count (drop b.position b.buffer) ++ (t ++ coming b.source)) rest
          ∙ sym (
              append_assoc (take count (drop b.position b.buffer))
                (drop count (drop b.position b.buffer)) (coming b.source))
          ∙ ap (λ (t : List ℕ). t ++ coming b.source)
              (take-append-drop count (drop b.position b.buffer))))
        (λ h.
          let over : b.ended ≡ true = ground arith in
          let all : b.position + count ≡ length b.buffer = ground arith in
          rw (drop_all (b.position + count) b.buffer all) (s.last over))
        (record { good = s.good; inside = omega arith; room = s.room; last = s.last })

  buffered-Read :
      (b : BufferedSource S) (size : ℕ)
      → Sane coming Good capacity b
      → Read coming Good capacity b size (buffered_read_some read_some capacity b size)
  unfolding buffered_read_some
  buffered-Read b zero s = Read.gave b [] false (omega arith) refl (λ h. cc) s
  buffered-Read b (suc size) s = elim (Bool-cases (b.position == length b.buffer)) [
    | inr n ↦ rw n (deliver-Read b (suc size) s)
    | inl y ↦
        let at_end : b.position ≡ length b.buffer = ground arith in
        let (sane, same) = fill-Sane b s at_end in
        let filled : BufferedSource S = (fill read_some capacity b).0 in
        elim (Expected-cases (fill read_some capacity b).1) [
          | inr (e, z) ↦ rw (y, z) (Read.refused filled e same sane)
          | inl (u, z) ↦ elim (Bool-cases (length filled.buffer == 0)) [
            | inr n ↦ rw (y, z, n) (from same (deliver-Read filled (suc size) sane))
            | inl none ↦
                rw (y, z, none)
                  (Read.gave filled [] filled.ended (omega arith) (sym same)
                    (λ h.
                      let zero_long : length filled.buffer ≡ 0 = ground arith in
                      let inside = sane.inside in
                      rw (drop_all filled.position filled.buffer (omega arith)) (sane.last h))
                    sane)
          ]
        ]
  ]

  read_stays :
      (b : BufferedSource S) (size : ℕ) (r : BufferedSource S × Expected Error Chunk)
      → Read coming Good capacity b size r
      → Sane coming Good capacity r.0
  read_stays b size _ (Read.gave b' bytes at_end few first last sane) = sane
  read_stays b size _ (Read.refused b' e kept sane) = sane

  read_gives :
      (b : BufferedSource S) (size : ℕ) (cs : List ℕ) (over : Bool)
      (r : BufferedSource S × Expected Error Chunk)
      → Read coming Good capacity b size r
      → r.1 ≡ value (cs, over)
      → (length cs ≤ size)
        × (ahead coming b ≡ cs ++ ahead coming r.0)
        × (over ≡ true → ahead coming r.0 ≡ [])
  read_gives b size cs over _ (Read.gave b' bytes at_end few first last sane) y =
      let same : bytes ≡ cs = cc in
      let flag : at_end ≡ over = cc in rw (sym same, sym flag) (few, first, last)
  read_gives b size cs over _ (Read.refused b' e kept sane) y = cc

  read_refuses :
      (b : BufferedSource S) (size : ℕ) (err : Error) (r : BufferedSource S × Expected Error Chunk)
      → Read coming Good capacity b size r
      → r.1 ≡ unexpected err
      → ahead coming r.0 ≡ ahead coming b
  read_refuses b size err _ (Read.gave b' bytes at_end few first last sane) y = cc
  read_refuses b size err _ (Read.refused b' e kept sane) y = kept

  -- A buffer in front of a source that keeps the promise of ReadSome keeps it too: what is to come
  -- from it is what the buffer still holds and what is to come from the source.
  pub buffered_read_some-Gives :
      Gives (buffered_read_some read_some capacity) (ahead coming) (Sane coming Good capacity)
  buffered_read_some-Gives = record {
    stays = λ b size s. read_stays b size _ (buffered-Read b size s);
    gives = λ b size cs over s y. read_gives b size cs over _ (buffered-Read b size s) y;
    refuses = λ b size e s y. read_refuses b size e _ (buffered-Read b size s) y;
  }
