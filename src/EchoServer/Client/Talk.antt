-- ===== src/EchoServer/Client/Talk.antt =====
-- The client of 22-ipc-uds and its server, one line at a time.
use mathlib.Core.List.{append-nil}
use so_2021v_li42d.Base.{
  ℕ, zero, suc, ◌+◌, ◌<◌, ◌≤◌, ◌≡◌, refl, ap, ◌∙◌, sym, Bool, true, false, ◌&&◌, some, List, [],
  ◌∷◌, ◌++◌, if◌then◌else◌, ◌==◌, ltb, update, update_self, length, length-append, arith,
  Bool-cases, inl, inr,
}
use so_2021v_li42d.EchoServer.{
  received, waiting, process_local_connection, session, fill, bytes_of, strlen, quit_word,
  stop_word, bufsize,
}
use so_2021v_li42d.EchoServer.Buffer.{says, before_nul, strlen-fill, terminated-fill}
use so_2021v_li42d.EchoServer.Client.{
  is_line_end, chomp, client_sends, client_shows, shows, client_round,
}
use so_2021v_li42d.EchoServer.Session.{process_local_connection-echoes}

-- A text without the line ends at its end.
abbrev pub all_ends : List ℕ → Bool
all_ends [] = true
all_ends (c ∷ cs) = is_line_end c && all_ends cs

abbrev pub chomped : List ℕ → List ℕ
chomped [] = []
chomped (c ∷ cs) = if is_line_end c && all_ends cs then [] else c ∷ chomped cs

all_ends-snoc : (xs : List ℕ) (c : ℕ) → all_ends (xs ++ c ∷ []) ≡ (all_ends xs && is_line_end c)
all_ends-snoc [] c = ground arith
all_ends-snoc (x ∷ xs) c = ground (arith, all_ends-snoc xs c)

chomped-nil : (xs : List ℕ) → all_ends xs ≡ true → chomped xs ≡ []
chomped-nil [] e = refl
chomped-nil (x ∷ xs) e = rw e refl

chomped-snoc :
    (xs : List ℕ) (c : ℕ)
    → chomped (xs ++ c ∷ []) ≡ (if is_line_end c then chomped xs else xs ++ c ∷ [])
chomped-snoc [] c = ground arith
chomped-snoc (x ∷ xs) c =
    rw (all_ends-snoc xs c, chomped-snoc xs c)
      (elim (Bool-cases (is_line_end c)) [
        | inl e ↦ rw e (ground arith)
        | inr e ↦ rw e (ground arith)
      ])

bytes_of-snoc :
    (buf : ℕ → ℕ) (i n : ℕ) → bytes_of buf i (suc n) ≡ bytes_of buf i n ++ buf (i + n) ∷ []
unfolding bytes_of
bytes_of-snoc buf i zero = ap (λ k. buf k ∷ []) (omega arith)
bytes_of-snoc buf i (suc n) =
    let next : i + 1 + n ≡ i + suc n = omega arith in
    ap (λ t. buf i ∷ t)
      (bytes_of-snoc buf (i + 1) n ∙ ap (λ k. bytes_of buf (i + 1) n ++ buf k ∷ []) next)

bytes_of-last : (buf : ℕ → ℕ) (n : ℕ) → bytes_of buf 0 (suc n) ≡ bytes_of buf 0 n ++ buf n ∷ []
bytes_of-last buf n =
    let same : 0 + n ≡ n = omega arith in
    bytes_of-snoc buf 0 n ∙ ap (λ k. bytes_of buf 0 n ++ buf k ∷ []) same

bytes_of-update :
    (buf : ℕ → ℕ) (i n p v : ℕ) → i + n ≤ p → bytes_of (update buf p v) i n ≡ bytes_of buf i n
unfolding bytes_of
bytes_of-update buf i zero p v l = refl
bytes_of-update buf i (suc n) p v l =
    let ih = bytes_of-update buf (i + 1) n p v (omega (arith, l)) in
    let here : update buf p v i ≡ buf i = ground (arith, l) in rw (here, ih) refl

bytes_of-none : (buf : ℕ → ℕ) (i : ℕ) → bytes_of buf i 0 ≡ []
unfolding bytes_of
bytes_of-none buf i = refl

bytes_of-one : (buf : ℕ → ℕ) (i : ℕ) → bytes_of buf i 1 ≡ buf i ∷ []
unfolding bytes_of
bytes_of-one buf i = refl

-- The loop that takes the line ends off leaves the bytes of `chomped`, with a NUL behind them.
chomp-chomped :
    (line : ℕ → ℕ) (len : ℕ)
    → line len ≡ 0
    → bytes_of (chomp line len).0 0 (suc (chomp line len).1)
      ≡ chomped (bytes_of line 0 len) ++ 0 ∷ []
unfolding chomp
chomp-chomped line zero e = bytes_of-one line 0 ∙ sym (rw (bytes_of-none line 0, e) refl)
chomp-chomped line (suc len) e =
    let ih = chomp-chomped (update line len 0) len (update_self line len 0) in
    let split = chomped-snoc (bytes_of line 0 len) (line len) in
    elim (Bool-cases (is_line_end (line len))) [
      | inl c ↦
          let same : chomped (bytes_of line 0 (suc len)) ≡ chomped (bytes_of line 0 len) =
            ap chomped (bytes_of-last line len) ∙ split ∙ rw c refl in
          let kept = bytes_of-update line 0 len len 0 (omega arith) in
          rw (c, same) (ih ∙ ap (λ t. chomped t ++ 0 ∷ []) kept)
      | inr c ↦
          let same : chomped (bytes_of line 0 (suc len)) ≡ bytes_of line 0 (suc len) =
            ap chomped (bytes_of-last line len) ∙ split ∙ rw c (sym (bytes_of-last line len)) in
          rw (c, same)
            (bytes_of-last line (suc len) ∙ ap (λ v. bytes_of line 0 (suc len) ++ v ∷ []) e)
    ]

abbrev last_of : List ℕ → ℕ
last_of [] = 0
last_of (x ∷ []) = x
last_of (x ∷ y ∷ xs) = last_of (y ∷ xs)

last_of-snoc : (xs : List ℕ) (c : ℕ) → last_of (xs ++ c ∷ []) ≡ c
last_of-snoc [] c = refl
last_of-snoc (x ∷ []) c = refl
last_of-snoc (x ∷ y ∷ xs) c = last_of-snoc (y ∷ xs) c

client_sends-chomped :
    (line : ℕ → ℕ) (text : List ℕ) → client_sends line text ≡ chomped (before_nul text) ++ 0 ∷ []
unfolding client_sends
client_sends-chomped line text =
    let stored = fill line 0 text in
    let len = strlen stored 0 (length text) in
    let ended : stored len ≡ 0 =
      sym (last_of-snoc (bytes_of stored 0 len) (stored len))
      ∙ ap last_of (sym (bytes_of-last stored len) ∙ terminated-fill line 0 text)
      ∙ last_of-snoc (before_nul text) 0 in
    chomp-chomped stored len ended ∙ ap (λ t. chomped t ++ 0 ∷ []) (strlen-fill line 0 text)

chomped-length : (xs : List ℕ) → length (chomped (before_nul xs)) ≤ length xs
chomped-length [] = omega arith
chomped-length (x ∷ xs) = ground (arith, chomped-length xs)

before_nul-chomped :
    (xs : List ℕ) → before_nul (chomped (before_nul xs) ++ 0 ∷ []) ≡ chomped (before_nul xs)
before_nul-chomped [] = refl
before_nul-chomped (x ∷ xs) = ground (arith, before_nul-chomped xs)

-- The answer of the server to a string with its NUL.
answers :
    (buf : ℕ → ℕ) (bytes text : List ℕ)
    → bytes ≡ text ++ 0 ∷ []
    → before_nul bytes ≡ text
    → length bytes < bufsize
    → says quit_word bytes ≡ false
    → says stop_word bytes ≡ false
    → session process_local_connection buf ((received bytes, true) ∷ []) ≡ (waiting, bytes)
answers buf bytes text e whole short not_quit not_stop =
    let fits : ltb (length bytes) bufsize ≡ true = ground (arith, short) in
    let some_bytes : (length bytes == 0) ≡ false =
      ground (arith, ap length e, length-append text (0 ∷ [])) in
    let back : before_nul bytes ++ 0 ∷ [] ≡ bytes = ap (λ t. t ++ 0 ∷ []) whole ∙ sym e in
    process_local_connection-echoes buf ((received bytes, true) ∷ [])
    ∙ rw (fits, some_bytes, not_quit, not_stop)
        (ap (λ t. (waiting, t)) (append-nil (before_nul bytes ++ 0 ∷ []) ∙ back))

shown :
    (line reply : ℕ → ℕ) (text sent : List ℕ)
    → client_round line reply (some text) true (received (sent ++ 0 ∷ []))
      ≡ shows (before_nul (sent ++ 0 ∷ []))
unfolding client_round client_shows
shown line reply text [] = ap shows (strlen-fill reply 0 (0 ∷ []))
shown line reply text (b ∷ sent) = ap shows (strlen-fill reply 0 (b ∷ sent ++ 0 ∷ []))

-- A line of at most 255 bytes that is typed at the client is sent up to its first NUL without the line
-- ends at its end and with a NUL behind it; if it is not a command, the server sends the same bytes
-- back and goes on, and the client shows the text that was typed, whatever the buffers held before.
pub client_round-echoes :
    (line reply buf : ℕ → ℕ) (text : List ℕ)
    → length text < 256
    → says quit_word (client_sends line text) ≡ false
    → says stop_word (client_sends line text) ≡ false
    → (session process_local_connection buf ((received (client_sends line text), true) ∷ [])
        ≡ (waiting, client_sends line text))
      × (client_round line reply (some text) true (received (client_sends line text))
          ≡ shows (chomped (before_nul text)))
client_round-echoes line reply buf text short not_quit not_stop =
    let sent = client_sends-chomped line text in
    let back = before_nul-chomped text in
    let size = ap length sent ∙ length-append (chomped (before_nul text)) (0 ∷ []) in
    (
      answers buf (client_sends line text) (chomped (before_nul text)) sent
          (ap before_nul sent ∙ back) (omega (arith, size, chomped-length text, short)) not_quit
          not_stop,
      ap (λ s. client_round line reply (some text) true (received s)) sent
          ∙ shown line reply text (chomped (before_nul text))
          ∙ ap shows back,
    )
