-- ===== src/Console/Input.antt =====
-- `read_char` of lib/plugins/console.c, and what `console_spin` makes of it.
use secure_mavlink_gateway.Prelude.{
  ℕ, ◌≡◌, refl, Bool, true, false, Option, none, some, bit_and, if◌then◌else◌, ◌==◌, ltb,
  Bool-cases, inl, inr,
}
use secure_mavlink_gateway.Prelude.Bits.{all_but}
use secure_mavlink_gateway.Outcome.{Outcome, done, assert_failed, out_of_bounds, ◌>>=◌}
use secure_mavlink_gateway.Platform.{Platform}
use secure_mavlink_gateway.Perf.{sub64}
use secure_mavlink_gateway.Console.{Console, press, console_spin}
use secure_mavlink_gateway.Console.Keys.{pressed, press_lem}

-- The static variable `initialized`, and `c_lflag` of the terminal.
pub record Terminal : Type 0 where
  pub initialized : Bool
  pub c_lflag : ℕ

-- With libc. The arguments: the number of the bit ICANON, whether `select` finds something to read, and
-- the character that `getchar` returns, `none` for EOF, which is -1.
unfoldable pub read_char_libc : ℕ → Bool → Option ℕ → Terminal → ℕ × Terminal
read_char_libc icanon readable next t =
    let t' : Terminal =
      (if t.initialized
        then t
        else record { initialized = true; c_lflag = bit_and t.c_lflag (all_but 32 icanon) }) in
    (if readable then (elim next [ none ↦ 255 | some c ↦ c ]) else 0, t')

-- On CertiKOS, where `sys_gets` stored so many characters, the first of them this one.
unfoldable pub read_char_certikos : ℕ → ℕ → ℕ
read_char_certikos rv first = if rv == 0 then 0 else first

module _ ⦃platform : Platform⦄ where
  open platform use {World, time_us, read_char, char_is_signed}

  -- The outcome with a key that is not 0.
  abbrev pub with_key : Console → ℕ → World → ℕ → Outcome Console
  with_key s now w c =
      if ltb c 128
      then done (record { pipeline = pressed s.pipeline c; last_time = now; world = w })
      else if char_is_signed
      then assert_failed
      else out_of_bounds

  -- The outcome with what there is to read.
  abbrev pub with_input : Console → ℕ → World → Bool → Option ℕ → Outcome Console
  with_input s now w false next = done (record s { last_time = now; world = w })
  with_input s now w true none = if char_is_signed then assert_failed else out_of_bounds
  with_input s now w true (some c) =
      if c == 0 then done (record s { last_time = now; world = w }) else with_key s now w c

  press-with_key :
      (s : Console) (now : ℕ) (w : World) (c : ℕ)
      → (press s.pipeline c >>= λ p. done (record { pipeline = p; last_time = now; world = w }))
        ≡ with_key s now w c
  press-with_key s now w c = rw (press_lem s.pipeline c) (elim (Bool-cases (ltb c 128)) [
    | inl ascii ↦ rw ascii refl
    | inr high ↦ rw high (elim (Bool-cases char_is_signed) [
      | inl signed ↦ rw signed refl
      | inr unsigned ↦ rw unsigned refl
    ])
  ])

  -- Where a tenth of a second has passed and `read_char` is that of libc: with nothing to read, or a zero
  -- byte, only the time changes, an ASCII key is pressed, and any other byte, as well as the end of the
  -- input, stops the gateway: an assertion fails where `char` is signed, and the access to the
  -- handlers is out of bounds where it is not.
  pub console_spin-with_input :
      (icanon : ℕ) (readable : Bool) (next : Option ℕ) (t : Terminal) (s : Console) (w : World)
      → read_char (time_us s.world).1 ≡ ((read_char_libc icanon readable next t).0, w)
      → ltb (sub64 (time_us s.world).0 s.last_time) 100000 ≡ false
      → console_spin s ≡ with_input s (time_us s.world).0 w readable next
  unfolding console_spin read_char_libc
  console_spin-with_input icanon false next t s w typed late = rw (late, typed) refl
  console_spin-with_input icanon true none t s w typed late =
      rw (late, typed) (press-with_key s (time_us s.world).0 w 255)
  console_spin-with_input icanon true (some c) t s w typed late =
      rw (late, typed)
        (elim (Bool-cases (c == 0)) [
          | inl zero ↦ rw zero refl
          | inr key ↦ rw key (press-with_key s (time_us s.world).0 w c)
        ])
