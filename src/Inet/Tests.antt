-- ===== src/Inet/Tests.antt =====
-- Runs of the functions of src/hcore_inet.c, and their theorems at these inputs.
use hcore.Base.{
  ℕ, ◌+◌, ◌*◌, ◌/◌, ◌%◌, ◌≡◌, refl, ◌≢◌, true, false, none, some, List, [], ◌∷◌, ◌++◌, arith, All,
}
use hcore.Str.Number.{hextoi, hextoi_loop, hex_digit}
use hcore.Str.Number.Decimal.{Spells}
use hcore.Inet.{strlchr, inaddr_none}
use hcore.Inet.Addr.{inet_addr, dotted, address, swap32, endian32, inet_addr-dotted}
use hcore.Inet.Mask.{check_mask, byte_loop, bit_loop, parse_ip_and_mask, parse_ip_and_mask-any_mask}
use hcore.Inet.Mac.{PairsFrom, bytes_from, mac_loop, parse_mac, parse_mac_and_mask}
use hcore.Inet.Url.{Url, IsParsed, parsed, parse_url, parse_url-IsParsed, parse_url-host_port}

-- `htonl` and `htons` of a little-endian machine
abbrev htonl : ℕ → ℕ
htonl v = endian32 true v

abbrev htons : ℕ → ℕ
htons v = v % 256 * 256 + v / 256

-- "10", "0", "255" and "300"
abbrev ten : List ℕ
ten = b'1' ∷ b'0' ∷ []

abbrev nought_text : List ℕ
nought_text = b'0' ∷ []

abbrev byte_max : List ℕ
byte_max = b'2' ∷ b'5' ∷ b'5' ∷ []

abbrev too_much : List ℕ
too_much = b'3' ∷ b'0' ∷ b'0' ∷ []

-- "10.0.0.10", and the mask "255.0.255.0"
abbrev host_text : List ℕ
host_text = dotted ten nought_text nought_text ten

abbrev split_mask : List ℕ
split_mask = dotted byte_max nought_text byte_max nought_text

inet_addr-dotted_example : inet_addr htonl host_text ≡ htonl (address 10 0 0 10)
inet_addr-dotted_example =
    inet_addr-dotted htonl ten nought_text nought_text ten (ground arith) (ground arith)
      (ground arith) (ground arith)

ten_spelt : Spells 65535 ten 10
ten_spelt = ground arith

byte_max_spelt : Spells 65535 byte_max 255
byte_max_spelt = ground arith

no_slash : All (λ x. x ≢ b'/') host_text
no_slash = ground arith

host_read : inet_addr htonl host_text ≢ inaddr_none
host_read = rw inet_addr-dotted_example (unfold endian32 swap32 in omega arith)

mask_read : inet_addr htonl split_mask ≢ inaddr_none
mask_read =
    rw
      (inet_addr-dotted htonl byte_max nought_text byte_max nought_text (ground arith)
        (ground arith) (ground arith) (ground arith))
      (unfold endian32 swap32 in omega arith)

parse_ip_and_mask-any_mask_example :
    parse_ip_and_mask htonl (host_text ++ b'/' ∷ split_mask)
    ≡ some (inet_addr htonl host_text, inet_addr htonl split_mask)
parse_ip_and_mask-any_mask_example =
    parse_ip_and_mask-any_mask htonl host_text split_mask no_slash (omega arith) (omega arith)
      host_read mask_read refl

-- "00:1a:2B-03:04:ff"
abbrev mac_text : List ℕ
mac_text =
    b'0' ∷ b'0' ∷ b':' ∷ b'1' ∷ b'a' ∷ b':' ∷ b'2' ∷ b'B' ∷ b'-' ∷ b'0' ∷ b'3' ∷ b':' ∷ b'0' ∷ b'4'
    ∷ b':' ∷ b'f' ∷ b'f' ∷ []

abbrev mac_tail : List ℕ
mac_tail = 0x1a ∷ 0x2b ∷ 3 ∷ 4 ∷ 0xff ∷ []

mac_text-PairsFrom : PairsFrom (bytes_from mac_text 0) 17 0 0 mac_tail
unfolding hextoi hextoi_loop hex_digit
mac_text-PairsFrom = ground arith

mac_and_mask_run :
    parse_mac_and_mask (mac_text ++ b'/' ∷ mac_text) ≡ some (0 ∷ mac_tail, 0 ∷ mac_tail)
mac_and_mask_run =
    unfold parse_mac_and_mask strlchr parse_mac mac_loop hextoi hextoi_loop hex_digit check_mask
      byte_loop bit_loop in
    refl

-- A URL in which nothing is set, and no listen flag.
abbrev blank : Url
blank = record {
  inet = false;
  addr = 0;
  sin_port = 0;
  port = 0;
  port_text = [];
  host = [];
  url_text = [];
  err = none;
  listen = false;
}

parse_url-host_port_example :
    parse_url htonl htons (host_text ++ b':' ∷ byte_max) blank
    ≡ (true, parsed htonl htons host_text byte_max 255 blank)
parse_url-host_port_example =
    parse_url-host_port htonl htons host_text byte_max 255 blank (ground arith) (omega arith) refl
      refl host_read byte_max_spelt (omega arith)

parse_url-IsParsed_example : IsParsed htonl htons (parsed htonl htons host_text byte_max 255 blank)
parse_url-IsParsed_example =
    parse_url-IsParsed htonl htons (host_text ++ b':' ∷ byte_max) blank
      (parsed htonl htons host_text byte_max 255 blank) parse_url-host_port_example
