-- ===== src/Durable/Log/Frames.antt =====
-- The frames of internal/durable/log.go: what `encodeFrame` writes, `readFrame` reads.
use waterfall.Prelude.{
  ℕ, zero, suc, ◌+◌, ◌-◌, ◌/◌, ◌%◌, ◌^◌, ◌<◌, ◌≤◌, arith, ◌≡◌, refl, ap, ◌∙◌, none, some, List, [],
  ◌∷◌, ◌++◌, length, or_else, take, drop, ltb, eqb, true, false, length-append,
}
use waterfall.Durable.Log.{Codec, LogRecord, put_uint32, uint32, encode_frame, framed, read_frame}

pub take_of_append : {A : Type 0} (xs ys : List A) → take (length xs) (xs ++ ys) ≡ xs
unfolding take length
take_of_append [] ys = refl
take_of_append (x ∷ xs) ys = ap (λ zs. x ∷ zs) (take_of_append xs ys)

drop_of_append : {A : Type 0} (xs ys : List A) → drop (length xs) (xs ++ ys) ≡ ys
unfolding drop length
drop_of_append [] ys = refl
drop_of_append (x ∷ xs) ys = drop_of_append xs ys

length-take : {A : Type 0} (m : ℕ) (xs : List A) → m ≤ length xs → length (take m xs) ≡ m
length-take zero xs h = refl
length-take (suc m) [] h = omega arith
length-take (suc m) (x ∷ xs) h = ap suc (length-take m xs (omega arith))

pub take-append :
    {A : Type 0} (k : ℕ) (xs ys : List A) → k ≤ length xs → take k (xs ++ ys) ≡ take k xs
take-append zero xs ys h = refl
take-append (suc k) [] ys h = absurd (omega arith)
take-append (suc k) (x ∷ xs) ys h = ap (λ zs. x ∷ zs) (take-append k xs ys (omega arith))

pub take-append_past :
    {A : Type 0} (k : ℕ) (xs ys : List A)
    → length xs ≤ k
    → take k (xs ++ ys) ≡ xs ++ take (k - length xs) ys
take-append_past k [] ys h = ap (λ j. take j ys) (omega arith)
take-append_past zero (x ∷ xs) ys h = absurd (omega arith)
take-append_past (suc k) (x ∷ xs) ys h =
    ap (λ zs. x ∷ zs)
      (take-append_past k xs ys (omega arith) ∙ ap (λ j. xs ++ take j ys) (omega arith))

module _ (n : ℕ) (h : n < 2 ^ 32) where
  uint32-put_uint32 : uint32 (n / 2 ^ 24 % 256) (n / 2 ^ 16 % 256) (n / 2 ^ 8 % 256) (n % 256) ≡ n
  unfolding uint32
  uint32-put_uint32 = omega arith

module _ (codec : Codec) where
  open codec use {marshal, unmarshal, crc32}

  -- The bytes of a frame.
  abbrev pub frame_of : List ℕ → List ℕ
  frame_of p = put_uint32 (length p) ++ (put_uint32 (crc32 p) ++ p)

  pub length-frame_of : (p : List ℕ) → length (frame_of p) ≡ 8 + length p
  unfolding put_uint32
  length-frame_of p = omega arith

  abbrev pub payload_of : LogRecord → List ℕ
  payload_of r = or_else [] (marshal r)

  -- A record that JSON can write, in a payload that fits a frame, and that reads back as itself.
  pub record IsJson (r : LogRecord) : Type 0 where
    pub writes : marshal r ≡ some (payload_of r)
    pub fits : length (payload_of r) < 2 ^ 32
    pub sum_fits : crc32 (payload_of r) < 2 ^ 32
    pub reads_back : unmarshal (payload_of r) ≡ some r

  -- The frames of records, one after the other.
  abbrev pub frames : List LogRecord → List ℕ
  frames [] = []
  frames (r ∷ rs) = frame_of (payload_of r) ++ frames rs

  pub encode_frame-IsJson :
      (r : LogRecord) → IsJson r → encode_frame codec r ≡ some (frame_of (payload_of r))
  unfolding encode_frame framed
  encode_frame-IsJson r h =
      let small : ltb (2 ^ 32 - 1) (length (payload_of r)) ≡ false =
        let f = h.fits in ground arith in
      ap (framed codec) h.writes ∙ rw small refl

  -- A frame reads back as its record, whatever follows it.
  pub read_frame-frame_of :
      (r : LogRecord) (rest : List ℕ)
      → IsJson r
      → read_frame codec (frame_of (payload_of r) ++ rest)
        ≡ some (r, 8 + length (payload_of r), rest)
  unfolding read_frame put_uint32
  read_frame-frame_of r rest h =
      let p = payload_of r in
      let n = uint32-put_uint32 (length p) h.fits in
      let c = uint32-put_uint32 (crc32 p) h.sum_fits in
      let enough : ltb (length (p ++ rest)) (length p) ≡ false = rw length-append (ground arith) in
      let same : eqb (crc32 p) (crc32 p) ≡ true = ground arith in
      rw (n, c, enough, take_of_append p rest, same, drop_of_append p rest, h.reads_back) refl

  -- A frame that is cut short does not read.
  pub read_frame-torn :
      (p : List ℕ) (k : ℕ)
      → length p < 2 ^ 32
      → k < 8 + length p
      → read_frame codec (take k (frame_of p)) ≡ none
  unfolding read_frame put_uint32
  read_frame-torn p zero f h = refl
  read_frame-torn p (suc zero) f h = refl
  read_frame-torn p (suc (suc zero)) f h = refl
  read_frame-torn p (suc (suc (suc zero))) f h = refl
  read_frame-torn p (suc (suc (suc (suc zero)))) f h = refl
  read_frame-torn p (suc (suc (suc (suc (suc zero))))) f h = refl
  read_frame-torn p (suc (suc (suc (suc (suc (suc zero)))))) f h = refl
  read_frame-torn p (suc (suc (suc (suc (suc (suc (suc zero))))))) f h = refl
  read_frame-torn p (suc (suc (suc (suc (suc (suc (suc (suc m)))))))) f h =
      let n = uint32-put_uint32 (length p) f in
      let short : ltb (length (take m p)) (length p) ≡ true =
        rw (length-take m p (omega arith)) (ground arith) in
      rw (n, short) refl
