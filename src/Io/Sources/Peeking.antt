-- ===== src/Io/Sources/Peeking.antt =====
-- Peek of BufferedSource: the byte that it shows, what it reads ahead, and its rounds.
use uefipp.Base.{
  ℕ, zero, suc, ◌+◌, ◌-◌, ◌%◌, ◌^◌, ◌≤◌, ◌<◌, ◌≡◌, ◌≢◌, refl, sym, ap, ◌∙◌, Bool, true, false, not,
  Bool-cases, inl, inr, some, List, [], ◌∷◌, ◌++◌, append_assoc, length-append, length-drop, length,
  drop, get_or, get_elem?, Expected-cases, Expected, value, unexpected, arith, ◌&&◌, ◌||◌, ◌==◌,
  ltb, if◌then◌else◌,
}
use uefipp.Io.{Error, out_of_fuel}
use uefipp.Io.Sources.{Chunk, Gives, BufferedSource, compacted, peek}
use uefipp.Io.Sources.Buffering.{ahead, Sane, drop_all}

nth_ahead :
    (n k : ℕ) (xs ys : List ℕ)
    → n + k < length xs
    → get_elem? (drop n xs ++ ys) k ≡ some (get_or xs (n + k) 0)
nth_ahead n k [] ys h = absurd (omega arith)
nth_ahead zero zero (x ∷ xs) ys h = refl
nth_ahead zero (suc k) (x ∷ xs) ys h =
    let more : 0 + suc k ≡ suc (0 + k) = omega arith in
    rw more (nth_ahead zero k xs ys (omega arith))
nth_ahead (suc n) k (x ∷ xs) ys h =
    let more : suc n + k ≡ suc (n + k) = omega arith in rw more (nth_ahead n k xs ys (omega arith))

module _ {ℓ} {S : Type ℓ} (read_some : S → ℕ → S × Expected Error Chunk) (coming : S → List ℕ)
    (Good : S → Type 0) (gives : Gives read_some coming Good) (capacity : ℕ) where
  compacted-Sane :
      (b : BufferedSource S)
      → Sane coming Good capacity b
      → Sane coming Good capacity (compacted read_some capacity b)
        × (ahead coming (compacted read_some capacity b) ≡ ahead coming b)
        × ((compacted read_some capacity b).position ≡ 0)
  unfolding compacted
  compacted-Sane b s =
      let inside = s.inside in
      let room = s.room in
      elim (Bool-cases (not (b.position == 0) && ltb b.position (length b.buffer))) [
        | inl y ↦
            rw (y, compacted)
              (
                record {
                  good = s.good;
                  inside = omega arith;
                  room = omega (arith, length-drop b.position b.buffer);
                  last = s.last;
                },
                refl,
                refl,
              )
        | inr n ↦ elim (Bool-cases (b.position == length b.buffer)) [
          | inl y ↦
              let all : b.position ≡ length b.buffer = ground arith in
              rw (n, y, compacted)
                (
                  record { good = s.good; inside = omega arith; room = omega arith; last = s.last },
                  ap (λ (t : List ℕ). t ++ coming b.source)
                      (sym (drop_all b.position b.buffer all)),
                  refl,
                )
          | inr m ↦ rw (n, m, compacted) (s, refl, ground arith)
        ]
      ]

  -- The state after a read behind the bytes of the buffer.
  read_more :
      (c : BufferedSource S) (bytes : List ℕ) (at_end : Bool)
      → Sane coming Good capacity c
      → c.position ≡ 0
      → (read_some c.source (capacity - length c.buffer)).1 ≡ value (bytes, at_end)
      → Sane coming Good capacity (record c {
        source = (read_some c.source (capacity - length c.buffer)).0;
        buffer = c.buffer ++ bytes;
        ended = at_end;
      })
        × (drop c.position (c.buffer ++ bytes)
              ++ coming (read_some c.source (capacity - length c.buffer)).0
            ≡ ahead coming c)
  read_more c bytes at_end s front y =
      let size : ℕ = capacity - length c.buffer in
      let (few, first, last) = gives.gives c.source size bytes at_end (s.good) y in
      let room = s.room in
      (
        record {
          good = gives.stays c.source size (s.good);
          inside = omega (arith, length-append c.buffer bytes);
          room = omega (arith, length-append c.buffer bytes);
          last = last;
        },
        rw front (
            append_assoc c.buffer bytes (coming (read_some c.source size).0)
            ∙ ap (λ (t : List ℕ). c.buffer ++ t) (sym first)),
      )

  -- The byte that Peek shows is the one that comes after `lookahead` others, and what is to come
  -- stays the same, where the lookahead does not reach the end of the 64-bit numbers.
  pub peek_shows :
      (fuel : ℕ) (b : BufferedSource S) (lookahead byte : ℕ)
      → Sane coming Good capacity b
      → capacity + lookahead < 2 ^ 64
      → (peek read_some capacity fuel b lookahead).1 ≡ value byte
      → (get_elem? (ahead coming b) lookahead ≡ some byte)
        × (ahead coming (peek read_some capacity fuel b lookahead).0 ≡ ahead coming b)
  unfolding peek
  peek_shows zero b k byte s small h = cc
  peek_shows (suc fuel) b k byte s small h =
      let inside = s.inside in
      let room = s.room in
      let c : BufferedSource S = compacted read_some capacity b in
      let (sane, same, front) = compacted-Sane b s in
      elim (Bool-cases (ltb ((b.position + k) % 2 ^ 64) (length b.buffer))) [
        | inl y ↦
            let unwrapped : (b.position + k) % 2 ^ 64 ≡ b.position + k = omega arith in
            let within : b.position + k < length b.buffer = ground arith in
            let shown : get_or b.buffer ((b.position + k) % 2 ^ 64) 0 ≡ byte = cc (y, h) in
            rw (y, peek)
              (
                nth_ahead b.position k b.buffer (coming b.source) within
                    ∙ ap (λ (t : ℕ). some (get_or b.buffer t 0)) (sym unwrapped)
                    ∙ ap (λ (t : ℕ). some t) shown,
                refl,
              )
        | inr n ↦ elim (Bool-cases (c.ended || length c.buffer == capacity)) [
          | inl z ↦ cc (n, z, h)
          | inr z ↦ elim (Expected-cases (read_some c.source (capacity - length c.buffer)).1) [
            | inr (e, y) ↦ cc (n, z, y, h)
            | inl ((bytes, at_end), y) ↦ elim (Bool-cases (length bytes == 0 && not at_end)) [
              | inl w ↦ cc (n, z, y, w, h)
              | inr w ↦
                  let (grown, more) = read_more c bytes at_end sane front y in
                  let (byte_there, kept) =
                    peek_shows fuel
                      (record c {
                        source = (read_some c.source (capacity - length c.buffer)).0;
                        buffer = c.buffer ++ bytes;
                        ended = at_end;
                      })
                      k byte grown small (rw (n, z, y, w, peek) at h) in
                  rw (n, z, y, w, peek) (rw (sym same, sym more) byte_there, kept ∙ more ∙ same)
            ]
          ]
        ]
      ]

  -- How many rounds Peek can make at most: one for each byte that is missing in the buffer, and one
  -- that finds the end.
  abbrev rounds : BufferedSource S → ℕ
  rounds b = capacity - (length b.buffer - b.position) + (if b.ended then 0 else 1)

  rounds-compacted :
      (b : BufferedSource S)
      → Sane coming Good capacity b
      → rounds (compacted read_some capacity b) ≡ rounds b
  unfolding compacted
  rounds-compacted b s =
      let inside = s.inside in
      elim (Bool-cases (not (b.position == 0) && ltb b.position (length b.buffer))) [
        | inl y ↦ rw y (omega (arith, length-drop b.position b.buffer))
        | inr n ↦ elim (Bool-cases (b.position == length b.buffer)) [
          | inl y ↦ let all : b.position ≡ length b.buffer = ground arith in rw (n, y) (omega arith)
          | inr m ↦ rw (n, m) refl
        ]
      ]

  fewer_rounds :
      (c : BufferedSource S) (bytes : List ℕ) (at_end : Bool)
      → c.position ≡ 0
      → length c.buffer ≤ capacity
      → length bytes ≤ capacity - length c.buffer
      → (c.ended || length c.buffer == capacity) ≡ false
      → (length bytes == 0 && not at_end) ≡ false
      → capacity - (length (c.buffer ++ bytes) - c.position) + (if at_end then 0 else 1) < rounds c
  fewer_rounds c bytes at_end front room few going read =
      ground (arith, length-append c.buffer bytes)

  rounds_end :
      (fuel : ℕ) (b : BufferedSource S) (lookahead : ℕ)
      → Sane coming Good capacity b
      → rounds b < fuel
      → (peek read_some capacity fuel b lookahead).1 ≢ unexpected out_of_fuel
  unfolding peek
  rounds_end zero b k s lt = absurd (omega arith)
  rounds_end (suc fuel) b k s lt =
      let c : BufferedSource S = compacted read_some capacity b in
      let (sane, same, front) = compacted-Sane b s in
      let room = sane.room in
      elim (Bool-cases (ltb ((b.position + k) % 2 ^ 64) (length b.buffer))) [
        | inl y ↦ rw (y, peek) (λ p. cc)
        | inr n ↦ elim (Bool-cases (c.ended || length c.buffer == capacity)) [
          | inl z ↦ rw (n, z, peek) (λ p. cc)
          | inr z ↦ elim (Expected-cases (read_some c.source (capacity - length c.buffer)).1) [
            | inr (e, y) ↦ rw (n, z, y, peek) (λ p. cc)
            | inl ((bytes, at_end), y) ↦ elim (Bool-cases (length bytes == 0 && not at_end)) [
              | inl w ↦ rw (n, z, y, w, peek) (λ p. cc)
              | inr w ↦
                  let (few, first, last) =
                    gives.gives c.source (capacity - length c.buffer) bytes at_end (sane.good) y in
                  let (grown, more) = read_more c bytes at_end sane front y in
                  let fewer = fewer_rounds c bytes at_end front room few z w in
                  let before = rounds-compacted b s in
                  rw (n, z, y, w, peek)
                    (rounds_end fuel
                      (record c {
                        source = (read_some c.source (capacity - length c.buffer)).0;
                        buffer = c.buffer ++ bytes;
                        ended = at_end;
                      })
                      k grown (omega arith))
            ]
          ]
        ]
      ]

  -- Two rounds more than the capacity are enough for Peek to end.
  pub peek_ends :
      (b : BufferedSource S) (lookahead : ℕ)
      → Sane coming Good capacity b
      → (peek read_some capacity (capacity + 2) b lookahead).1 ≢ unexpected out_of_fuel
  peek_ends b k s = rounds_end (capacity + 2) b k s (few b.ended)
    where
      few :
          (over : Bool)
          → capacity - (length b.buffer - b.position) + (if over then 0 else 1) < capacity + 2
      few true = omega arith
      few false = omega arith
