-- ===== src/Uart/Device/Raw.antt =====
-- Which settings of the terminal `uart_device_init` leaves (lib/source_uart.c), bit by bit.
use native.Mathlib.Nat.{pow-suc, one-le-pow}
use secure_mavlink_gateway.Prelude.{
  ℕ, zero, suc, ◌+◌, ◌-◌, ◌/◌, ◌^◌, ◌<◌, ◌≡◌, ◌↔◌, refl, ap, ap₂, ◌∙◌, Bool, true, false, ◌||◌,
  Option, none, some, List, [], ◌∷◌, bit_or, max, if◌then◌else◌, ◌==◌, Bool-cases, inl, inr, arith,
}
use secure_mavlink_gateway.Prelude.Bits.{
  bit, bit-suc, bit-zero, bit-lt, bit-bit_and, bit-bit_or, bit_or_step,
}
use secure_mavlink_gateway.Results.{Result, succ}
use secure_mavlink_gateway.Uart.Device.{
  Termios, Options, without, any_of, make_raw, Device, Attempt, uart_device_init,
}

half-complement : (n f : ℕ) → f < 2 ^ suc n → (2 ^ suc n - 1 - f) / 2 ≡ 2 ^ n - 1 - f / 2
half-complement n f small = omega (arith, pow-suc 2 n, one-le-pow n 2 (omega arith))

bit-complement : (n f j : ℕ) → f < 2 ^ n → j < n → bit (2 ^ n - 1 - f) j + bit f j ≡ 1
bit-complement zero f j small inside = absurd (omega arith)
bit-complement (suc n) f zero small inside =
    omega (arith, pow-suc 2 n, one-le-pow n 2 (omega arith))
bit-complement (suc n) f (suc j) small inside = omega (
  arith,
  bit-suc (2 ^ suc n - 1 - f) j,
  bit-suc f j,
  ap (λ (x : ℕ). bit x j) (half-complement n f small),
  bit-complement n (f / 2) j (omega (arith, pow-suc 2 n)) (omega arith),
)

bit_or-lt : (n x y : ℕ) → x < 2 ^ n → y < 2 ^ n → bit_or x y < 2 ^ n
bit_or-lt zero x y small small' =
    let left : x ≡ 0 = omega arith in
    let right : y ≡ 0 = omega arith in omega (arith, ap₂ bit_or left right, bit_or_step 0 0)
bit_or-lt (suc n) x y small small' = omega (
  arith,
  pow-suc 2 n,
  bit_or_step x y,
  bit_or-lt n (x / 2) (y / 2) (omega (arith, pow-suc 2 n)) (omega (arith, pow-suc 2 n)),
)

-- Words of 32 bits.
abbrev pub AllWords : List ℕ → Type 0
AllWords [] = Unit {0}
AllWords (flag ∷ flags) = (flag < 2 ^ 32) × AllWords flags

-- Whether one of the flags has this bit.
abbrev pub any_bit : List ℕ → ℕ → Bool
any_bit [] j = false
any_bit (flag ∷ flags) j = bit flag j == 1 || any_bit flags j

any_of-lt : (flags : List ℕ) → AllWords flags → any_of flags < 2 ^ 32
any_of-lt [] words = omega arith
any_of-lt (flag ∷ flags) (word, words) =
    bit_or-lt 32 flag (any_of flags) word (any_of-lt flags words)

bit-any_of : (flags : List ℕ) (j : ℕ) → bit (any_of flags) j ≡ (if any_bit flags j then 1 else 0)
bit-any_of [] j = bit-zero j
bit-any_of (flag ∷ flags) j =
    ground (arith, bit-bit_or flag (any_of flags) j, bit-any_of flags j, bit-lt flag j)

-- The bits of the flags are cleared, and no others.
bit-without :
    (flags : List ℕ) (x j : ℕ)
    → AllWords flags
    → j < 32
    → bit (without (any_of flags) x) j ≡ (if any_bit flags j then 0 else bit x j)
bit-without flags x j words inside =
    let both = bit-bit_and x (2 ^ 32 - 1 - any_of flags) j in
    let other = bit-complement 32 (any_of flags) j (any_of-lt flags words) inside in
    let here = bit-any_of flags j in
    elim (Bool-cases (any_bit flags j)) [
      | inl has ↦
          rw has (omega (arith, both, other, here ∙ ap (λ (b : Bool). if b then 1 else 0) has))
      | inr has_not ↦ rw has_not (
          omega
            (arith, both, other, bit-lt x j, here ∙ ap (λ (b : Bool). if b then 1 else 0) has_not))
    ]

-- The flags that are cleared in each word, as they are in the source.
abbrev pub local_flags : Termios → List ℕ
local_flags t = t.icanon ∷ t.echo ∷ t.echoe ∷ t.isig ∷ []

abbrev pub break_flags : Termios → List ℕ
break_flags t = t.ignbrk ∷ t.brkint ∷ t.parmrk ∷ t.istrip ∷ t.inlcr ∷ t.igncr ∷ t.icrnl ∷ []

abbrev pub flow_flags : Termios → List ℕ
flow_flags t = t.ixon ∷ t.ixoff ∷ t.ixany ∷ []

-- The macros are words of 32 bits.
pub record AreWords (t : Termios) : Type 0 where
  pub control : AllWords (t.csize ∷ t.cs8 ∷ t.parenb ∷ t.cstopb ∷ t.crtscts ∷ [])
  pub output : t.opost < 2 ^ 32
  pub locals : AllWords (local_flags t)
  pub breaks : AllWords (break_flags t)
  pub flows : AllWords (flow_flags t)

-- A bit that was `old`, where a flag is cleared.
abbrev pub cleared : (flag j old : ℕ) → ℕ
cleared flag j old = if bit flag j == 1 then 0 else old

-- No echo, no lines, no signals, no translation and no flow control; eight data bits, no parity, one stop
-- bit; `read` waits for one byte; all other bits are those of the terminal before.
pub record IsRaw (t : Termios) (o o' : Options) : Type 0 where
  pub lflag :
      (j : ℕ)
      → j < 32
      → bit o'.c_lflag j ≡ (if any_bit (local_flags t) j then 0 else bit o.c_lflag j)
  pub oflag : (j : ℕ) → j < 32 → bit o'.c_oflag j ≡ cleared t.opost j (bit o.c_oflag j)
  pub iflag :
      (j : ℕ)
      → j < 32
      → bit o'.c_iflag j ≡ (
          if any_bit (break_flags t) j
          then 0
          else if any_bit (flow_flags t) j
          then 0
          else bit o.c_iflag j)
  pub cflag :
      (j : ℕ)
      → j < 32
      → bit o'.c_cflag j
        ≡ cleared t.crtscts j (
            cleared t.cstopb j
              (cleared t.parenb j (max (cleared t.csize j (bit o.c_cflag j)) (bit t.cs8 j))))
  pub waits : (o'.vmin ≡ 1) × (o'.vtime ≡ 0)
  pub speed : (o'.ispeed ≡ t.b115200) × (o'.ospeed ≡ t.b115200)

-- One flag alone.
bit-without_one :
    (flag x j : ℕ) → flag < 2 ^ 32 → j < 32 → bit (without flag x) j ≡ cleared flag j (bit x j)
bit-without_one flag x j word inside =
    let both = bit-bit_and x (2 ^ 32 - 1 - flag) j in
    let other = bit-complement 32 flag j word inside in
    ground (arith, both, other, bit-lt x j, bit-lt flag j)

make_raw-IsRaw : (t : Termios) (o : Options) → AreWords t → IsRaw t o (make_raw t o)
unfolding make_raw
make_raw-IsRaw t o words =
    let (size, (eight, (parity, (stop, (rts, _))))) = words.control in
    record {
      lflag = λ j inside. bit-without (local_flags t) o.c_lflag j words.locals inside;
      oflag = λ j inside. bit-without_one t.opost o.c_oflag j words.output inside;
      iflag = λ j inside.
          bit-without (break_flags t) (without (any_of (flow_flags t)) o.c_iflag) j words.breaks
            inside
          ∙ ap (λ (b : ℕ). if any_bit (break_flags t) j then 0 else b)
              (bit-without (flow_flags t) o.c_iflag j words.flows inside);
      cflag = λ j inside.
          let x₁ = without t.csize o.c_cflag in
          let x₂ = bit_or x₁ t.cs8 in
          let x₃ = without t.parenb x₂ in
          let x₄ = without t.cstopb x₃ in
          bit-without_one t.crtscts x₄ j rts inside
          ∙ ap (cleared t.crtscts j) (
              bit-without_one t.cstopb x₃ j stop inside
              ∙ ap (cleared t.cstopb j) (
                  bit-without_one t.parenb x₂ j parity inside
                  ∙ ap (cleared t.parenb j) (
                      bit-bit_or x₁ t.cs8 j
                      ∙ ap (λ (b : ℕ). max b (bit t.cs8 j))
                          (bit-without_one t.csize o.c_cflag j size inside))));
      waits = (refl, refl);
      speed = (refl, refl);
    }

-- The descriptors that nobody keeps, after one more was opened.
abbrev pub given_up : Device → List ℕ
given_up d = elim d.fd [ none ↦ d.left_open | some old ↦ old ∷ d.left_open ]

abbrev pub Succeeds : Attempt → Type 0
Succeeds a =
    ((fd : ℕ) × (a.opened ≡ some fd)) × ((o : Options) × (a.got ≡ some o)) × (a.accepted ≡ true)

-- What the call does to the connection.
abbrev pub IsSetUp : Termios → Attempt → Device → Result × Device → Type 0
IsSetUp t a d r =
    ((r.0 ≡ succ) ↔ Succeeds a)
    × (r.0 ≡ succ
        → (o : Options) × (o' : Options) × (a.got ≡ some o)
          × (r.1.options ≡ some o')
          × IsRaw t o o')
    × (r.1.left_open ≡ given_up d)

set_up :
    (t : Termios) (opened : Option ℕ) (got : Option Options) (accepted : Bool) (d : Device)
    → AreWords t
    → let a : Attempt = record { opened = opened; got = got; accepted = accepted } in
      IsSetUp t a d (uart_device_init t a d)
unfolding uart_device_init
set_up t none got accepted d words = ((λ e. cc, λ ((fd, never), tty, taken). cc), λ e. cc, refl)
set_up t (some fd) none accepted d words =
    ((λ e. cc, λ (opened, (o, never), taken). cc), λ e. cc, refl)
set_up t (some fd) (some o) false d words = ((λ e. cc, λ (opened, got, never). cc), λ e. cc, refl)
set_up t (some fd) (some o) true d words = (
  (λ e. ((fd, refl), (o, refl), refl), λ all. refl),
  λ e. (o, make_raw t o, refl, refl, make_raw-IsRaw t o words),
  refl,
)

-- Given that the macros are words of 32 bits: `uart_device_init` succeeds exactly if `open`, `tcgetattr`
-- and `tcsetattr` do, and the terminal is then raw, bit by bit. Whatever happens, a descriptor that
-- the connection had is given up without being closed.
pub uart_device_init_lem :
    (t : Termios) (a : Attempt) (d : Device) → AreWords t → IsSetUp t a d (uart_device_init t a d)
uart_device_init_lem t a d words = set_up t a.opened a.got a.accepted d words
