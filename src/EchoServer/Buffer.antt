-- ===== src/EchoServer/Buffer.antt =====
-- What the buffer of the echo servers holds after a read: only what was read now matters for the
-- commands and for the echo, whatever the buffer held before.
use so_2021v_li42d.Base.{
  ℕ, zero, suc, ◌+◌, ◌≤◌, ◌<◌, ◌≡◌, ◌≢◌, refl, ap, ◌∙◌, Bool, true, false, ◌&&◌, List, [], ◌∷◌,
  ◌++◌, if◌then◌else◌, ◌==◌, update, update_self, length, arith, ==_iff, Bool-cases, inl, inr,
}
use so_2021v_li42d.EchoServer.{fill, below_space, is_command, bytes_of, strlen}

fill-before : (buf : ℕ → ℕ) (i k : ℕ) (bytes : List ℕ) → k < i → fill buf i bytes k ≡ buf k
unfolding fill
fill-before buf i k [] l = ground arith
fill-before buf i k (b ∷ bytes) l =
    fill-before (update buf i b) (i + 1) k bytes (omega arith) ∙ ground arith

fill-first : (buf : ℕ → ℕ) (i b : ℕ) (bytes : List ℕ) → fill buf i (b ∷ bytes) i ≡ b
unfolding fill
fill-first buf i b bytes =
    fill-before (update buf i b) (i + 1) i bytes (omega arith) ∙ update_self buf i b

fill-end : (buf : ℕ → ℕ) (i : ℕ) → fill buf i [] i ≡ 0
unfolding fill
fill-end buf i = update_self buf i 0

-- The command that the bytes of one read stand for, with no buffer: the word, then the end of the
-- bytes or a character below the space.
abbrev pub says : (word bytes : List ℕ) → Bool
says [] [] = true
says [] (b ∷ bytes) = below_space b
says (w ∷ word) [] = false
says (w ∷ word) (b ∷ bytes) = b == w && says word bytes

abbrev pub NoNul : List ℕ → Type 0
NoNul [] = Unit
NoNul (w ∷ word) = (w ≢ 0) × NoNul word

pub is_command-says :
    (word : List ℕ) (buf : ℕ → ℕ) (i : ℕ) (bytes : List ℕ)
    → NoNul word
    → is_command word (fill buf i bytes) i ≡ says word bytes
unfolding is_command below_space fill
is_command-says [] buf i [] n = rw (fill-end buf i) refl
is_command-says [] buf i (b ∷ bytes) n = rw (fill-first buf i b bytes) refl
is_command-says (w ∷ word) buf i [] n = rw (fill-end buf i) (ground (arith, n.0))
is_command-says (w ∷ word) buf i (b ∷ bytes) n =
    rw (fill-first buf i b bytes)
      (ap (λ t. b == w && t) (is_command-says word (update buf i b) (i + 1) bytes n.1))

pub bytes_of-fill :
    (buf : ℕ → ℕ) (i : ℕ) (bytes : List ℕ) → bytes_of (fill buf i bytes) i (length bytes) ≡ bytes
unfolding bytes_of fill
bytes_of-fill buf i [] = refl
bytes_of-fill buf i (b ∷ bytes) =
    rw (fill-first buf i b bytes) (ap (λ t. b ∷ t) (bytes_of-fill (update buf i b) (i + 1) bytes))

-- The bytes before the first NUL.
abbrev pub before_nul : List ℕ → List ℕ
before_nul [] = []
before_nul (b ∷ bytes) = if b == 0 then [] else b ∷ before_nul bytes

pub strlen-fill_room :
    (buf : ℕ → ℕ) (i : ℕ) (bytes : List ℕ) (n : ℕ)
    → length bytes ≤ n
    → bytes_of (fill buf i bytes) i (strlen (fill buf i bytes) i n) ≡ before_nul bytes
unfolding bytes_of strlen fill
strlen-fill_room buf i [] zero room = refl
strlen-fill_room buf i [] (suc n) room = rw (fill-end buf i) refl
strlen-fill_room buf i (b ∷ bytes) zero room = absurd (omega arith)
strlen-fill_room buf i (b ∷ bytes) (suc n) room =
    let ih = strlen-fill_room (update buf i b) (i + 1) bytes n (omega arith) in
    rw (fill-first buf i b bytes) (elim (Bool-cases (b == 0)) [
      | inl e ↦ rw e refl
      | inr e ↦ rw (e, fill-first buf i b bytes) (ap (λ t. b ∷ t) ih)
    ])

pub strlen-fill :
    (buf : ℕ → ℕ) (i : ℕ) (bytes : List ℕ)
    → bytes_of (fill buf i bytes) i (strlen (fill buf i bytes) i (length bytes)) ≡ before_nul bytes
strlen-fill buf i bytes = strlen-fill_room buf i bytes (length bytes) (omega arith)

pub terminated-fill :
    (buf : ℕ → ℕ) (i : ℕ) (bytes : List ℕ)
    → bytes_of (fill buf i bytes) i (suc (strlen (fill buf i bytes) i (length bytes)))
      ≡ before_nul bytes ++ 0 ∷ []
unfolding bytes_of strlen fill
terminated-fill buf i [] = rw (fill-end buf i) refl
terminated-fill buf i (b ∷ bytes) =
    let ih = terminated-fill (update buf i b) (i + 1) bytes in
    rw (fill-first buf i b bytes) (elim (Bool-cases (b == 0)) [
      | inl e ↦ rw e (ap (λ t. t ∷ []) ((==_iff b 0).0 e))
      | inr e ↦ rw e (ap (λ t. b ∷ t) ih)
    ])
