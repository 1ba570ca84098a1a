-- ===== src/Live/Buffer/Fifo.antt =====
-- The buffer as a queue (backend/app/infrastructure/audio/bounded_chunk_buffer.py).
use ai_meeting_copilot.Prelude.{
  ℕ, suc, ◌-◌, ◌≤◌, ◌<◌, ◌≡◌, refl, sym, ap, ◌∙◌, ◌⊎◌, inl, inr, false, Option, none, some, List,
  [], ◌∷◌, ◌++◌, arith, ◌==◌, ==_iff, Bool-cases, length, drop, take_last, length-append,
  append_nil, append_assoc, ◌>>=◌, Result, ok,
}
use ai_meeting_copilot.Live.Buffer.{buffer_init, make_room, put, BoundedAudioChunkBuffer}

pub record IsValid {A : Type 0} (b : BoundedAudioChunkBuffer A) : Type 0 where
  pub positive : 0 < b.max_size
  pub bounded : length b.chunks ≤ b.max_size

-- The chunk that fell out, if any.
abbrev pub dropped_list : {A : Type 0} → Option A → List A
dropped_list none = []
dropped_list (some c) = c ∷ []

module _ {A : Type 0} where
  make_room_lem :
      (n : ℕ) (cs : List A)
      → 0 < n
      → length cs ≤ n
      → (dropped_list (make_room n cs).0 ++ (make_room n cs).1 ≡ cs)
        × (length (make_room n cs).1 < n)
  make_room_lem n [] p h = (refl, p)
  make_room_lem n (c ∷ cs) p h = elim (Bool-cases (suc (length cs) == n)) [
    | inl full ↦ (rw full, rw full (omega arith))
    | inr room ↦ (rw room, rw room (below _ _ h room))
  ]
    where
      below : (a b : ℕ) → a ≤ b → (a == b) ≡ false → a < b
      below a b h k = ground arith

  -- On a valid open buffer `put` succeeds and leaves a valid open buffer, and the chunk that it
  -- returns as dropped, if any, with the chunks after it are the chunks before it with the new
  -- one behind: only the oldest chunk is ever lost, and it is reported.
  pub put-fifo :
      (chunk : A) (b : BoundedAudioChunkBuffer A)
      → IsValid b
      → b.is_closed ≡ false
      → (dropped : Option A) × (b' : BoundedAudioChunkBuffer A) × (put chunk b ≡ ok (dropped, b'))
        × IsValid b'
        × (b'.is_closed ≡ false)
        × (dropped_list dropped ++ b'.chunks ≡ b.chunks ++ (chunk ∷ []))
  unfolding put
  put-fifo chunk b v o =
      let (kept, small) = make_room_lem b.max_size b.chunks v.positive v.bounded in
      let room = make_room b.max_size b.chunks in
      (
        room.0,
        record b { chunks = room.1 ++ (chunk ∷ []) },
        rw o,
        record {
          positive = v.positive;
          bounded = rw (length-append room.1 (chunk ∷ [])) (omega arith);
        },
        o,
        sym (append_assoc (dropped_list room.0) room.1 (chunk ∷ []))
            ∙ ap (λ cs. cs ++ (chunk ∷ [])) kept,
      )

  -- A sequence of calls of `put`.
  unfoldable pub put_all : List A → BoundedAudioChunkBuffer A → Result (BoundedAudioChunkBuffer A)
  put_all [] b = ok b
  put_all (c ∷ cs) b = put c b >>= λ r. put_all cs r.1

  -- The newest chunks of a history are those of its newest part.
  newest_of_tail :
      (n : ℕ) (xs ys : List A) → n ≤ length ys → take_last n (xs ++ ys) ≡ take_last n ys
  newest_of_tail n [] ys h = refl
  newest_of_tail n (x ∷ xs) ys h =
      let e : suc (length (xs ++ ys)) - n ≡ suc (length (xs ++ ys) - n) =
        omega (arith, length-append xs ys) in
      rw e (newest_of_tail n xs ys h)

  -- What the buffer holds after the chunks h: the newest of them, and all while there is room.
  abbrev pub Holds : BoundedAudioChunkBuffer A → List A → Type 0
  Holds b h =
      (lost : List A) × (lost ++ b.chunks ≡ h) × ((lost ≡ []) ⊎ (length b.chunks ≡ b.max_size))

  -- Either there is room, or the oldest chunk goes.
  room-cases :
      (n : ℕ) (cs : List A)
      → 0 < n
      → length cs ≤ n
      → ((make_room n cs ≡ (none, cs)) × (length cs < n))
        ⊎ ((d : A) × (rest : List A) × (cs ≡ d ∷ rest)
            × (make_room n cs ≡ (some d, rest))
            × (suc (length rest) ≡ n))
  room-cases n [] p h = inl (refl, p)
  room-cases n (c ∷ cs) p h = elim (Bool-cases (suc (length cs) == n)) [
    | inl full ↦ inr (c, cs, refl, rw full, (==_iff _ _).0 full)
    | inr room ↦ inl (rw room, below _ _ h room)
  ]
    where
      below : (a b : ℕ) → a ≤ b → (a == b) ≡ false → a < b
      below a b h k = ground arith

  put-Holds :
      (c : A) (b : BoundedAudioChunkBuffer A) (h : List A)
      → IsValid b
      → b.is_closed ≡ false
      → Holds b h
      → (b' : BoundedAudioChunkBuffer A) × (d : Option A) × (put c b ≡ ok (d, b'))
        × IsValid b'
        × (b'.is_closed ≡ false)
        × (b'.max_size ≡ b.max_size)
        × Holds b' (h ++ (c ∷ []))
  unfolding put
  put-Holds c b h v o (lost, e, full) = elim (room-cases b.max_size b.chunks v.positive v.bounded) [
    | inl (r, small) ↦ (
      record b { chunks = b.chunks ++ (c ∷ []) },
      none,
      rw (o, r),
      record {
        positive = v.positive;
        bounded = rw (length-append b.chunks (c ∷ [])) (omega arith);
      },
      o,
      refl,
      (
        lost,
        sym (append_assoc lost b.chunks (c ∷ [])) ∙ ap (λ x. x ++ (c ∷ [])) e,
        not_full small full,
      ),
    )
    | inr (d, rest, f, r, n) ↦ (
      record b { chunks = rest ++ (c ∷ []) },
      some d,
      rw (o, r),
      record { positive = v.positive; bounded = rw (length-append rest (c ∷ [])) (omega arith) },
      o,
      refl,
      (lost ++ (d ∷ []), moved d rest f, inr (length-append rest (c ∷ []) ∙ omega (arith, n))),
    )
  ]
    where
      not_full :
          length b.chunks < b.max_size
          → (lost ≡ []) ⊎ (length b.chunks ≡ b.max_size)
          → (lost ≡ []) ⊎ (length (b.chunks ++ (c ∷ [])) ≡ b.max_size)
      not_full s (inl none_lost) = inl none_lost
      not_full s (inr at_size) = absurd (omega arith)

      moved :
          (d : A) (rest : List A)
          → b.chunks ≡ d ∷ rest
          → (lost ++ (d ∷ [])) ++ (rest ++ (c ∷ [])) ≡ h ++ (c ∷ [])
      moved d rest f =
          append_assoc lost (d ∷ []) (rest ++ (c ∷ []))
          ∙ sym (append_assoc lost (d ∷ rest) (c ∷ []))
          ∙ ap (λ x. x ++ (c ∷ [])) (ap (λ x. lost ++ x) (sym f) ∙ e)

  put_all-Holds :
      (cs : List A) (b : BoundedAudioChunkBuffer A) (h : List A)
      → IsValid b
      → b.is_closed ≡ false
      → Holds b h
      → (b' : BoundedAudioChunkBuffer A) × (put_all cs b ≡ ok b')
        × IsValid b'
        × (b'.max_size ≡ b.max_size)
        × Holds b' (h ++ cs)
  unfolding put_all
  put_all-Holds [] b h v o k = (b, refl, v, refl, (k.0, k.1 ∙ sym (append_nil h), k.2))
  put_all-Holds (c ∷ cs) b h v o k =
      let (b1, d, e, v1, o1, m1, k1) = put-Holds c b h v o k in
      let (b2, f, v2, m2, k2) = put_all-Holds cs b1 (h ++ (c ∷ [])) v1 o1 k1 in
      (b2, rw e f, v2, m2 ∙ m1, (k2.0, k2.1 ∙ append_assoc h (c ∷ []) cs, k2.2))

  Holds-newest :
      (b : BoundedAudioChunkBuffer A) (h : List A)
      → IsValid b
      → Holds b h
      → b.chunks ≡ take_last b.max_size h
  Holds-newest b h v (lost, e, inl z) =
      let f : b.chunks ≡ h = ap (λ x. x ++ b.chunks) (sym z) ∙ e in
      sym (ap (take_last b.max_size) (sym f) ∙ ap (λ n. drop n b.chunks) (zero_of v.bounded))
    where
      zero_of : length b.chunks ≤ b.max_size → length b.chunks - b.max_size ≡ 0
      zero_of s = omega arith
  Holds-newest b h v (lost, e, inr n) = sym (
      ap (take_last b.max_size) (sym e)
      ∙ newest_of_tail b.max_size lost b.chunks (omega arith)
      ∙ ap (λ k. drop k b.chunks) (zero_of n))
    where
      zero_of : length b.chunks ≡ b.max_size → length b.chunks - b.max_size ≡ 0
      zero_of s = omega arith

  -- After any sequence of chunks a new buffer holds exactly the newest ones, as many as its size
  -- allows, oldest first; none of the calls raises.
  pub put_all-newest :
      (n : ℕ) (cs : List A)
      → 0 < n
      → (b0 : BoundedAudioChunkBuffer A) × (b : BoundedAudioChunkBuffer A) × (buffer_init n ≡ ok b0)
        × (put_all cs b0 ≡ ok b)
        × (b.chunks ≡ take_last n cs)
  unfolding buffer_init
  put_all-newest n cs p =
      let b0 : BoundedAudioChunkBuffer A = record {
        max_size = n;
        chunks = [];
        is_closed = false;
      } in
      let (b, e, v, m, k) =
        put_all-Holds cs b0 [] (record { positive = p; bounded = omega arith }) refl
          ([], refl, inl refl) in
      (b0, b, rw (positive n p), e, Holds-newest b cs v k ∙ ap (λ s. take_last s cs) m)
    where
      positive : (n : ℕ) → 0 < n → (n == 0) ≡ false
      positive n h = ground arith
