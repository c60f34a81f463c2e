-- ===== src/MemChannel/Numbers/Printed.antt =====
-- What the server of 19-ipc/test_memchannel_srv.c prints of the numbers that its clients put.
use Prim.Native.Nat.{◌∣◌}
use native.Mathlib.Nat.{dvd_of_mod-eq-zero}
use so_2021v_li42d.Base.{
  ℕ, zero, suc, ◌+◌, ◌^◌, ◌≤◌, ◌<◌, ◌≡◌, ◌≢◌, inl, inr, refl, ap, sym, ◌∙◌, Bool, true, false, some,
  List, [], ◌∷◌, ◌++◌, ◌==◌, update, update_self, arith,
}
use so_2021v_li42d.MemChannel.{MemChannel, mc_create, mc_get_fetch}
use so_2021v_li42d.MemChannel.Traffic.{
  System, Step, put_wait, put_store, put_post, get_wait, get_fetch, get_post, Reach, created, later,
}
use so_2021v_li42d.MemChannel.Fifo.{split, channel-Fifo}
use so_2021v_li42d.MemChannel.Numbers.{
  mc_capacity, mc_elem_size, int_bytes, int_of, Numbers, client_puts, server_gets, NumbersStep,
  puts_number, gets_number, passes, NumbersReach, numbers_started, numbers_later,
}

-- The first `n` of the numbers.
abbrev pub firsts : (vals : ℕ → ℕ) → ℕ → List ℕ
firsts vals zero = []
firsts vals (suc n) = firsts vals n ++ vals n ∷ []

-- Whether the last of the first `n` numbers is 0.
abbrev pub ends_in_0 : (vals : ℕ → ℕ) → ℕ → Bool
ends_in_0 vals zero = false
ends_in_0 vals (suc n) = vals n == 0

pub record Prints (s : Numbers) : Type 0 where
  pub printed : s.printed ≡ firsts s.vals s.sys.gets
  pub ended : s.ended ≡ ends_in_0 s.vals s.sys.gets
  pub before : (i : ℕ) → i + 1 < s.sys.gets → s.vals i ≢ 0

record Stored (s : Numbers) : Type 0 where
  small : (i : ℕ) → i < s.sys.puts → s.vals i < 2 ^ 32
  bytes : (i k : ℕ) → i < s.sys.puts → s.sys.sent i k ≡ int_bytes (s.vals i) k

int_of-int_bytes :
    (b : ℕ → ℕ) (v : ℕ)
    → v < 2 ^ 32
    → ((k : ℕ) → k < mc_elem_size → b k ≡ int_bytes v k)
    → int_of b ≡ v
unfolding int_of int_bytes
int_of-int_bytes b v small same =
    omega (
      arith,
      same 0 (omega arith),
      same 1 (omega arith),
      same 2 (omega arith),
      same 3 (omega arith),
    )

firsts-update : (vals : ℕ → ℕ) (p v n : ℕ) → n ≤ p → firsts (update vals p v) n ≡ firsts vals n
firsts-update vals p v zero le = refl
firsts-update vals p v (suc n) le =
    let other : (p == n) ≡ false = ground arith in
    rw other (ap (λ t. t ++ vals n ∷ []) (firsts-update vals p v n (omega arith)))

ends_in_0-update :
    (vals : ℕ → ℕ) (p v n : ℕ) → n ≤ p → ends_in_0 (update vals p v) n ≡ ends_in_0 vals n
ends_in_0-update vals p v zero le = refl
ends_in_0-update vals p v (suc n) le = let other : (p == n) ≡ false = ground arith in rw other refl

passes-sent : {s t : System} → Step s t → t.puts ≡ s.puts → t.sent ≡ s.sent
passes-sent (put_wait r) e = refl
passes-sent (put_store item l) e = absurd (omega arith)
passes-sent (put_post l) e = refl
passes-sent (get_wait r) e = refl
passes-sent (get_fetch item l) e = refl
passes-sent (get_post l) e = refl

eight_divides : 8 ∣ 2 ^ 64
eight_divides = dvd_of_mod-eq-zero 8 refl

module _ (items_offset : ℕ) (base : ℕ → ℕ) {mc : MemChannel}
    (made : mc_create items_offset (some base) mc_elem_size mc_capacity ≡ some mc) where
  client_puts-Stored :
      (s : Numbers) (val : ℕ) → val < 2 ^ 32 → Stored s → Stored (client_puts val s)
  client_puts-Stored s val small h = record {
    small = λ i l. elim (split i s.sys.puts l) [
      | inl older ↦ ground (arith, h.small i older)
      | inr new ↦ ground (arith, small, new)
    ];
    bytes = λ i k l. elim (split i s.sys.puts l) [
      | inl older ↦
          let other : (s.sys.puts == i) ≡ false = ground (arith, older) in
          rw other (h.bytes i k older)
      | inr new ↦ let same : (s.sys.puts == i) ≡ true = ground (arith, new) in rw same refl
    ];
  }

  client_puts-Prints :
      (s : Numbers) (val : ℕ) → s.sys.gets ≤ s.sys.puts → Prints s → Prints (client_puts val s)
  client_puts-Prints s val le h = record {
    printed = h.printed ∙ sym (firsts-update s.vals s.sys.puts val s.sys.gets le);
    ended = h.ended ∙ sym (ends_in_0-update s.vals s.sys.puts val s.sys.gets le);
    before = λ i l. ground (arith, h.before i l);
  }

  server_gets-Prints :
      (s : Numbers) (garbage : ℕ → ℕ)
      → s.ended ≡ false
      → int_of (mc_get_fetch garbage s.sys.chan).1 ≡ s.vals s.sys.gets
      → Prints s
      → Prints (server_gets garbage s)
  server_gets-Prints s garbage going is h =
      let n = s.sys.gets in
      let next : n + 1 ≡ suc n = omega arith in
      record {
        printed =
            ap (λ t. t ++ int_of (mc_get_fetch garbage s.sys.chan).1 ∷ []) h.printed
            ∙ ap (λ v. firsts s.vals n ++ v ∷ []) is
            ∙ ap (firsts s.vals) (sym next);
        ended = ap (λ v. v == 0) is ∙ ap (ends_in_0 s.vals) (sym next);
        before = λ i l. elim (split (i + 1) n l) [
          | inl older ↦ h.before i older
          | inr last ↦
              let one_more : s.sys.gets ≡ suc i = omega (arith, last) in
              let not_0 : (s.vals i == 0) ≡ false =
                ap (ends_in_0 s.vals) (sym one_more) ∙ sym h.ended ∙ going in
              λ z. ground (arith, not_0, z)
        ];
      }

  passes-Prints :
      (s : Numbers) (t : System) → t.gets ≡ s.sys.gets → Prints s → Prints (record s { sys = t })
  passes-Prints s t same h = record {
    printed = h.printed ∙ ap (firsts s.vals) (sym same);
    ended = h.ended ∙ ap (ends_in_0 s.vals) (sym same);
    before = λ i l. h.before i (omega (arith, l, same));
  }

  -- The number that the server gets is the next one.
  got_next :
      (s : Numbers) (garbage : ℕ → ℕ)
      → Reach mc s.sys
      → 0 < s.sys.getting
      → Stored s
      → int_of (mc_get_fetch garbage s.sys.chan).1 ≡ s.vals s.sys.gets
  got_next s garbage reach some_getting h =
      let n = s.sys.gets in
      let after = later reach (get_fetch garbage some_getting) in
      let (order, room, same) =
        channel-Fifo items_offset mc_elem_size mc_capacity base eight_divides made after in
      int_of-int_bytes (mc_get_fetch garbage s.sys.chan).1 (s.vals n) (h.small n (omega arith))
        (λ k l.
          ap (λ f. f k) (sym (update_self s.sys.received n (mc_get_fetch garbage s.sys.chan).1))
          ∙ same n k (omega arith) l
          ∙ h.bytes n k (omega arith))

  record Good (s : Numbers) : Type 0 where
    reached : Reach mc s.sys
    puts : Stored s
    prints : Prints s

  NumbersStep-Good : {s t : Numbers} → NumbersStep s t → Good s → Good t
  NumbersStep-Good {s} (puts_number val small some_putting) g =
      let (order, room, same) =
        channel-Fifo items_offset mc_elem_size mc_capacity base eight_divides made g.reached in
      record {
        reached = later g.reached (put_store (int_bytes val) some_putting);
        puts = client_puts-Stored s val small g.puts;
        prints = client_puts-Prints s val order g.prints;
      }
  NumbersStep-Good {s} (gets_number garbage going some_getting) g = record {
    reached = later g.reached (get_fetch garbage some_getting);
    puts = record { small = g.puts.small; bytes = g.puts.bytes };
    prints =
        server_gets-Prints s garbage going (got_next s garbage g.reached some_getting g.puts)
          g.prints;
  }
  NumbersStep-Good {s} (passes {t} step same_puts same_gets) g = record {
    reached = later g.reached step;
    puts =
        let sent = passes-sent step same_puts in
        record {
          small = λ i l. g.puts.small i (omega (arith, l, same_puts));
          bytes = λ i k l. ap (λ f. f i k) sent ∙ g.puts.bytes i k (omega (arith, l, same_puts));
        };
    prints = passes-Prints s t same_gets g.prints;
  }

  NumbersReach-Good : {s : Numbers} → NumbersReach mc s → Good s
  NumbersReach-Good numbers_started = record {
    reached = created;
    puts = record { small = λ i l. absurd (omega arith); bytes = λ i k l. absurd (omega arith) };
    prints = record { printed = refl; ended = refl; before = λ i l. absurd (omega arith) };
  }
  NumbersReach-Good (numbers_later r step) = NumbersStep-Good step (NumbersReach-Good r)

-- Whatever the clients put and however they and the server take turns, the server has printed the first
-- of the numbers in the order in which they were put, each one whole; it has ended exactly if the last of
-- them is 0, and none before that is.
pub NumbersReach-Prints :
    (items_offset : ℕ) (base : ℕ → ℕ) {mc : MemChannel} {s : Numbers}
    → mc_create items_offset (some base) mc_elem_size mc_capacity ≡ some mc
    → NumbersReach mc s
    → Prints s
NumbersReach-Prints items_offset base made r = (NumbersReach-Good items_offset base made r).prints
