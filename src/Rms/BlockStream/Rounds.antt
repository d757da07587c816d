-- ===== src/Rms/BlockStream/Rounds.antt =====
-- rms/blockstream.go: one round of fill beside the file's bytes.
use ods.Base.{
  ℕ, ◌+◌, ◌-◌, ◌*◌, ◌/◌, ◌%◌, ◌^◌, ◌≤◌, ◌<◌, ◌≡◌, ◌⊎◌, inl, refl, ap, sym, ◌∙◌, List, [], ◌∷◌, ◌++◌,
  Option, none, some, Error, ok, err, end_of_file, unexpected_eof, arith, get_or, length, take,
  drop, slice, ◌==◌, if◌then◌else◌, length-append, length-take, length-drop, min, take-min,
  drop-drop, take-add, drop-take,
}
use ods.Base.Word.{u32}
use ods.Rms.BlockStream.{
  BlockSource, BlockStream, unread, add_block, after_peek, after_read_full, after_read_byte,
}

-- Every block of the source that has a byte before `limit` is a whole one of `bytes`, which are as
-- many as those blocks hold.
pub record IsFile (source : BlockSource) (limit : ℕ) (bytes : List ℕ) : Type 0 where
  pub reads : (v : ℕ) → v * 512 < limit → source (v + 1) ≡ ok (slice bytes (v * 512) 512)
  pub whole : (v : ℕ) → v * 512 < limit → v * 512 + 512 ≤ length bytes
  pub enough : limit ≤ length bytes
  pub bounded : limit + 512 < 2 ^ 41

-- The stream stands at byte `o`: what it holds unread are the file's bytes from there on.
pub record IsAt (limit : ℕ) (bytes : List ℕ) (s : BlockStream) (o : ℕ) : Type 0 where
  pub inside : s.buf_off ≤ length s.buf
  pub here : o + length (unread s) ≡ s.fetched
  pub holds : unread s ≡ slice bytes o (length (unread s))
  pub ahead : (s.fetched ≤ limit) ⊎ (length (unread s) ≡ 0)

-- What `fill` leaves when it returns.
pub record Filled (limit : ℕ) (bytes : List ℕ) (n o : ℕ) (r : BlockStream × Option Error)
    : Type 0 where
  pub at_same : IsAt limit bytes r.0 o
  pub outcome :
      ((r.1 ≡ none) × (n ≤ length (unread r.0)))
      ⊎ ((r.1 ≡ some end_of_file) × (length (unread r.0) < n) × (limit ≤ r.0.fetched))

-- The part of a block that a round adds.
rest_of_block :
    (limit f : ℕ) (bytes : List ℕ)
    → f < limit
    → f / 512 * 512 + 512 ≤ length bytes
    → let rest = take (limit - f) (drop (f % 512) (slice bytes (f / 512 * 512) 512)) in
      (rest ≡ slice bytes f (length rest)) × (0 < length rest) × (f + length rest ≤ limit)
rest_of_block limit f bytes h w =
    let from : List ℕ = drop (f / 512 * 512) bytes in
    let size : length from ≡ length bytes - f / 512 * 512 = length-drop (f / 512 * 512) bytes in
    let split : f % 512 + (512 - f % 512) ≡ 512 = omega arith in
    let cut : drop (f % 512) (take 512 from) ≡ take (512 - f % 512) (drop (f % 512) from) =
      ap (λ (k : ℕ). drop (f % 512) (take k from)) (sym split)
      ∙ drop-take (f % 512) (512 - f % 512) from in
    let there : drop (f % 512) from ≡ drop f bytes =
      drop-drop (f % 512) (f / 512 * 512) bytes ∙ ap (λ (k : ℕ). drop k bytes) (omega arith) in
    let part : drop (f % 512) (take 512 from) ≡ take (512 - f % 512) (drop f bytes) =
      cut ∙ ap (take (512 - f % 512)) there in
    let rest : List ℕ = take (limit - f) (drop (f % 512) (take 512 from)) in
    let long : length rest ≡ min (limit - f) (512 - f % 512) = omega (
      arith,
      length-take (limit - f) (drop (f % 512) (take 512 from)),
      length-drop (f % 512) (take 512 from),
      length-take 512 from,
    ) in
    let same : rest ≡ take (min (limit - f) (512 - f % 512)) (drop f bytes) =
      rw part (take-min (limit - f) (512 - f % 512) (drop f bytes)) in
    (rw long same, omega (arith, long), omega (arith, long))

-- One round keeps the place, and brings the end of the file nearer.
pub add_block-IsAt :
    (limit : ℕ) (bytes : List ℕ) (s : BlockStream) (o : ℕ)
    → IsAt limit bytes s o
    → s.fetched < limit
    → s.fetched / 512 * 512 + 512 ≤ length bytes
    → let s' = add_block limit s (slice bytes (s.fetched / 512 * 512) 512) in
      IsAt limit bytes s' o × (length (unread s) < length (unread s'))
unfolding add_block
add_block-IsAt limit bytes s o a h w =
    let rest : List ℕ =
      take (limit - s.fetched) (drop (s.fetched % 512) (slice bytes (s.fetched / 512 * 512) 512)) in
    let (same, some_more, within) = rest_of_block limit s.fetched bytes h w in
    let joined : length (unread s ++ rest) ≡ length (unread s) + length rest =
      length-append (unread s) rest in
    let behind : drop (length (unread s)) (drop o bytes) ≡ drop s.fetched bytes =
      drop-drop (length (unread s)) o bytes ∙ ap (λ (k : ℕ). drop k bytes) a.here in
    let both : take (length (unread s) + length rest) (drop o bytes) ≡ unread s ++ rest =
      rw (take-add (length (unread s)) (length rest) (drop o bytes), behind, ← same, ← a.holds)
        refl in
    (
      record {
        inside = omega arith;
        here = omega (arith, a.here, joined);
        holds = sym both ∙ ap (λ (k : ℕ). take k (drop o bytes)) (sym joined);
        ahead = inl within;
      },
      omega (arith, joined, some_more),
    )

-- A file of fewer than 2 ^ 32 blocks: the block numbers do not wrap around.
pub block_number : (f : ℕ) → f + 512 < 2 ^ 41 → u32 (u32 (f / 512) + 1) ≡ f / 512 + 1
block_number f h = omega arith

pub after_read_full_done :
    (n : ℕ) (r : BlockStream × Option Error)
    → r.1 ≡ none
    → after_read_full n r ≡ (record r.0 { buf_off = r.0.buf_off + n }, ok (take n (unread r.0)))
unfolding after_read_full
after_read_full_done n (s, none) e = refl
after_read_full_done n (s, some x) e = cc

pub after_read_full_failed :
    (n : ℕ) (r : BlockStream × Option Error) (x : Error)
    → r.1 ≡ some x
    → after_read_full n r
      ≡ (r.0, err (if length (unread r.0) == 0 then end_of_file else unexpected_eof))
unfolding after_read_full
after_read_full_failed n (s, none) x e = cc
after_read_full_failed n (s, some y) x e = refl

pub after_peek_done :
    (n : ℕ) (r : BlockStream × Option Error)
    → r.1 ≡ none
    → after_peek n r ≡ (r.0, some (take n (unread r.0)))
unfolding after_peek
after_peek_done n (s, none) e = refl
after_peek_done n (s, some x) e = cc

pub after_peek_failed :
    (n : ℕ) (r : BlockStream × Option Error) (x : Error)
    → r.1 ≡ some x
    → after_peek n r ≡ (r.0, none)
unfolding after_peek
after_peek_failed n (s, none) x e = cc
after_peek_failed n (s, some y) x e = refl

pub after_read_byte_done :
    (r : BlockStream × Option Error)
    → r.1 ≡ none
    → after_read_byte r ≡ (record r.0 { buf_off = r.0.buf_off + 1 }, ok (get_or (unread r.0) 0 0))
unfolding after_read_byte
after_read_byte_done (s, none) e = refl
after_read_byte_done (s, some x) e = cc

pub after_read_byte_failed :
    (r : BlockStream × Option Error) (x : Error) → r.1 ≡ some x → after_read_byte r ≡ (r.0, err x)
unfolding after_read_byte
after_read_byte_failed (s, none) x e = cc
after_read_byte_failed (s, some y) x e = cc

pub first_taken : (b : List ℕ) → get_or b 0 0 ≡ get_or (take 1 b) 0 0
first_taken [] = refl
first_taken (x ∷ b) = refl
