-- ===== src/Stdio/Offsets.antt =====
-- From where in the payload `stdio_route` of lib/source_stdio.c prints the fields.
use secure_mavlink_gateway.Prelude.{
  ℕ, zero, suc, ◌+◌, ◌*◌, ◌≡◌, refl, ap, ◌∙◌, Bool, true, false, ◌&&◌, Option, none, some, List, [],
  ◌∷◌, length, take, drop, length-drop, map, leb, if◌then◌else◌, arith,
}
use secure_mavlink_gateway.Outcome.{Outcome, done, out_of_bounds, ◌>>=◌}
use secure_mavlink_gateway.Platform.{Platform}
use secure_mavlink_gateway.Message.{Message}
use secure_mavlink_gateway.Ports.{max_sinks}
use secure_mavlink_gateway.Results.{Result, succ}
use secure_mavlink_gateway.Stdio.{
  String, FieldType, char, uint8, int8, uint16, int16, uint32, int32, uint64, int64, float, double,
  other, Field, MessageInfo, Value, hexadecimal, decimal, unknown, Described, Printed, read_front,
  of_bytes, element, copied, print_value, print_fields, print_sinks, print_info, source_name,
  stdio_route,
}

-- How long a value is, in bytes.
abbrev pub width : FieldType → ℕ
width char = 1
width uint8 = 1
width int8 = 1
width uint16 = 2
width int16 = 2
width uint32 = 4
width int32 = 4
width uint64 = 8
width int64 = 8
width float = 4
width double = 8
width (other type) = 0

-- How many bytes of the payload the code takes an offset to count.
abbrev pub unit : FieldType → ℕ
unit float = 1
unit double = 1
unit t = width t

-- The value that these bytes are.
abbrev pub value : FieldType → List ℕ → Value
value float bs = decimal bs
value double bs = decimal bs
value (other type) bs = unknown type
value t bs = hexadecimal (2 * width t) (of_bytes bs)

-- The field's bytes, if it began there.
abbrev pub slice : FieldType → ℕ → List ℕ → List ℕ
slice t at payload = take (width t) (drop at payload)

abbrev pub fits : FieldType → ℕ → List ℕ → Bool
fits t at payload = leb (at + width t) (length payload)

-- What a field prints.
abbrev pub shown : List ℕ → Field → String × Value
shown payload f = (f.name, value f.type (slice f.type (f.structure_offset * unit f.type) payload))

abbrev pub all_fit : List Field → List ℕ → Bool
all_fit [] payload = true
all_fit (f ∷ fields) payload =
    fits f.type (f.structure_offset * unit f.type) payload && all_fit fields payload

-- The result, or an access out of bounds.
abbrev pub within {ℓ} : {A : Type ℓ} → Bool → A → Outcome A
within inside result = if inside then done result else out_of_bounds

read_front_lem :
    (n : ℕ) (memory : List ℕ) → read_front n memory ≡ within (leb n (length memory)) (take n memory)
read_front_lem zero memory = ground arith
read_front_lem (suc n) [] = ground arith
read_front_lem (suc n) (b ∷ memory) = rw (read_front_lem n memory) (ground arith)

within-both {ℓ κ ι} :
    {A : Type ℓ} {B : Type κ} {C : Type ι} (b c : Bool) (x : A) (y : B) (f : A → B → C)
    → (within b x >>= λ x'. within c y >>= λ y'. done (f x' y')) ≡ within (b && c) (f x y)
within-both true true x y f = refl
within-both true false x y f = refl
within-both false c x y f = refl

-- A value of at least one byte, behind so many.
read_at :
    (n at : ℕ) (payload : List ℕ)
    → read_front (suc n) (drop at payload)
      ≡ within (leb (at + suc n) (length payload)) (take (suc n) (drop at payload))
read_at n at payload =
    read_front_lem (suc n) (drop at payload)
    ∙ ap (λ b. within b (take (suc n) (drop at payload))) (ground (arith, length-drop at payload))

within-map {ℓ κ} :
    {A : Type ℓ} {B : Type κ} (b : Bool) (x : A) (f : A → B)
    → (within b x >>= λ y. done (f y)) ≡ within b (f x)
within-map true x f = refl
within-map false x f = refl

print_at {ℓ} :
    {B : Type ℓ} (n at : ℕ) (payload : List ℕ) (f : List ℕ → B)
    → (read_front (suc n) (drop at payload) >>= λ bs. done (f bs))
      ≡ within (leb (at + suc n) (length payload)) (f (take (suc n) (drop at payload)))
print_at n at payload f =
    ap (λ o. o >>= λ bs. done (f bs)) (read_at n at payload)
    ∙ within-map (leb (at + suc n) (length payload)) (take (suc n) (drop at payload)) f

copied_lem :
    (n offset : ℕ) (payload : List ℕ)
    → copied (suc n) offset payload
      ≡ within
          (leb (offset * 1 + suc n) (length payload))
          (decimal (take (suc n) (drop (offset * 1) payload)))
unfolding copied
copied_lem n offset payload =
    let same : offset ≡ offset * 1 = omega arith in
    print_at n offset payload decimal
    ∙ ap
        (λ at.
          within (leb (at + suc n) (length payload)) (decimal (take (suc n) (drop at payload))))
        same

print_value_lem :
    (t : FieldType) (offset : ℕ) (payload : List ℕ)
    → print_value t offset payload
      ≡ within (fits t (offset * unit t) payload) (value t (slice t (offset * unit t) payload))
unfolding print_value element
print_value_lem char offset payload = print_at 0 (offset * 1) payload _
print_value_lem uint8 offset payload = print_at 0 (offset * 1) payload _
print_value_lem int8 offset payload = print_at 0 (offset * 1) payload _
print_value_lem uint16 offset payload = print_at 1 (offset * 2) payload _
print_value_lem int16 offset payload = print_at 1 (offset * 2) payload _
print_value_lem uint32 offset payload = print_at 3 (offset * 4) payload _
print_value_lem int32 offset payload = print_at 3 (offset * 4) payload _
print_value_lem uint64 offset payload = print_at 7 (offset * 8) payload _
print_value_lem int64 offset payload = print_at 7 (offset * 8) payload _
print_value_lem float offset payload = copied_lem 3 offset payload
print_value_lem double offset payload = copied_lem 7 offset payload
print_value_lem (other type) offset payload = ground arith

print_fields_lem :
    (fields : List Field) (payload : List ℕ)
    → print_fields fields payload ≡ within (all_fit fields payload) (map (shown payload) fields)
unfolding print_fields
print_fields_lem [] payload = refl
print_fields_lem (f ∷ fields) payload =
    rw (print_value_lem f.type f.structure_offset payload, print_fields_lem fields payload)
      (within-both (fits f.type (f.structure_offset * unit f.type) payload) (all_fit fields payload)
        (shown payload f).1 (map (shown payload) fields) (λ v values. (f.name, v) ∷ values))

-- Whether a message's fields are inside.
abbrev pub info_fits : Option MessageInfo → List ℕ → Bool
info_fits none payload = true
info_fits (some info) payload = all_fit info.fields payload

module _ ⦃platform : Platform⦄ where
  open platform use {Msg, compid, seq, len, payload}

  abbrev pub described : Option MessageInfo → Msg → Option Described
  described none m = none
  described (some info) m = some (record {
    name = info.name;
    msgid = info.msgid;
    compid = compid m;
    seq = seq m;
    fields = map (shown (payload m)) info.fields;
  })

  print_info_lem :
      (info : Option MessageInfo) (m : Msg)
      → print_info info m ≡ within (info_fits info (payload m)) (described info m)
  unfolding print_info
  print_info_lem none m = refl
  print_info_lem (some info) m = rw (print_fields_lem info.fields (payload m)) (
      within-map (all_fit info.fields (payload m)) (map (shown (payload m)) info.fields) (λ values.
        some (record {
          name = info.name;
          msgid = info.msgid;
          compid = compid m;
          seq = seq m;
          fields = values;
        })))

  -- The line of a message.
  abbrev pub line : Message → Option Described → List ℕ → Result × Printed
  line m info bytes = (
    succ,
    record {
      source = (source_name m.source, m.source);
      sinks = print_sinks max_sinks 0 m.sinks;
      attribute = m.attribute;
      info = info;
      bytes = bytes;
    },
  )

  -- `stdio_route` succeeds and prints each field from the bytes of its value, which it takes to begin
  -- at the field's offset, but for an integer of `w` bytes at `w` times the offset, if all these bytes,
  -- and those that the message's length says, lie in the payload; otherwise it reads out of bounds.
  pub stdio_route_lem :
      (mavlink_get_message_info : Msg → Option MessageInfo) (m : Message)
      → let info = mavlink_get_message_info m.msg in
        stdio_route mavlink_get_message_info m
        ≡ within
            (info_fits info (payload m.msg) && leb (len m.msg) (length (payload m.msg)))
            (line m (described info m.msg) (take (len m.msg) (payload m.msg)))
  unfolding stdio_route
  stdio_route_lem mavlink_get_message_info m =
      let info = mavlink_get_message_info m.msg in
      rw (print_info_lem info m.msg, read_front_lem (len m.msg) (payload m.msg))
        (within-both (info_fits info (payload m.msg)) (leb (len m.msg) (length (payload m.msg)))
          (described info m.msg) (take (len m.msg) (payload m.msg)) (line m))
