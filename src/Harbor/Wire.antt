-- ===== src/Harbor/Wire.antt =====
-- The form of a message of service_harbor.c on the wire, and what its reader makes of it.
use sdy.Base.{
  Bool, List, ap, ap₂, arith, drop-append, false, length, length-append, ltb, refl, some,
  take-append, ℕ, ◌%◌, ◌++◌, ◌+◌, ◌-◌, ◌/◌, ◌<◌, ◌^◌, ◌∙◌, ◌≡◌,
}
use sdy.Harbor.{
  Header, HarborMsg, to_bigendian, from_bigendian, header_to_message, message_to_header, Effect,
  forward_to, forward_local_messsage,
}

-- The three words of a header are 32-bit words.
pub record IsHeader (h : Header) : Type 0 where
  pub source_word : h.source < 2 ^ 32
  pub destination_word : h.destination < 2 ^ 32
  pub session_word : h.session < 2 ^ 32

pub length-header_to_message : (h : Header) → length (header_to_message h) ≡ 12
unfolding header_to_message to_bigendian
length-header_to_message h = refl

word-to_bigendian :
    (n : ℕ)
    → n < 2 ^ 32
    → from_bigendian (n / 2 ^ 24 % 256) (n / 2 ^ 16 % 256) (n / 2 ^ 8 % 256) (n % 256) ≡ n
word-to_bigendian n h = omega (arith, h)

abbrev header_of : ℕ → ℕ → ℕ → Header
header_of a b c = record { source = a; destination = b; session = c }

-- The reader of a header gives back the header that was written.
pub message_to_header-header_to_message :
    (h : Header) → IsHeader h → message_to_header (header_to_message h) ≡ some h
unfolding message_to_header header_to_message to_bigendian
message_to_header-header_to_message h v =
    ap₂
      (λ (a b : ℕ). some (
        header_of a b (
          from_bigendian (h.session / 2 ^ 24 % 256) (h.session / 2 ^ 16 % 256)
            (h.session / 2 ^ 8 % 256) (h.session % 256))))
      (word-to_bigendian h.source v.source_word)
      (word-to_bigendian h.destination v.destination_word)
    ∙ ap (λ (c : ℕ). some (header_of h.source h.destination c))
        (word-to_bigendian h.session v.session_word)

-- The part of a frame after its length.
abbrev pub payload : HarborMsg → List ℕ
payload m = m.buffer ++ header_to_message m.header

pub length-payload : (m : HarborMsg) → length (payload m) ≡ length m.buffer + 12
length-payload m =
    length-append m.buffer (header_to_message m.header)
    ∙ ap (λ (n : ℕ). length m.buffer + n) (length-header_to_message m.header)

-- What a node does with a message that reaches it.
abbrev pub forwarded : (ℕ → Bool) → ℕ → HarborMsg → List Effect
forwarded found id m = forward_to found id m.header m.buffer

-- Forwarding the content of a frame forwards the message that was framed.
pub forward_local_messsage-payload :
    (found : ℕ → Bool) (id : ℕ) (m : HarborMsg)
    → IsHeader m.header
    → forward_local_messsage found id (payload m) ≡ some (forwarded found id m)
unfolding forward_local_messsage
forward_local_messsage-payload found id m v =
    let n = length-payload m in
    let long : ltb (length (payload m)) 12 ≡ false = ground (arith, n) in
    let cut : length (payload m) - 12 ≡ length m.buffer = omega (arith, n) in
    rw
      (
        long,
        cut,
        drop-append m.buffer (header_to_message m.header),
        message_to_header-header_to_message m.header v,
        take-append m.buffer (header_to_message m.header),
      )
      refl
