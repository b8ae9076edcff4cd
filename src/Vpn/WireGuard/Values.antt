-- ===== src/Vpn/WireGuard/Values.antt =====
-- What the importer has read so far is in range, and each value keeps it so.
use Prim.Native.Char.{code}
use better_nm.Prelude.{
  ℕ, zero, suc, ◌≤◌, String, List, [], ◌∷◌, Bool, true, false, ◌&&◌, ◌||◌, Option, none, some,
  str_eq, if◌then◌else◌, All, ◌≡◌, refl, arith, Bool-cases, inl, inr,
}
use better_nm.Vpn.WireGuard.Text.{is_name_char, legal_chars, iface_name, parse_uint, is_key}
use better_nm.Vpn.WireGuard.Spec.{
  Addr, Parsers, WireGuardPeer, WireGuardSpec, Section, peer_section, Parse, Step, next, refused,
  nil_peer, Result, parsed, invalid_conf, panic, with,
}
use better_nm.Vpn.WireGuard.Lines.{parse_mark, keepalive, is_endpoint, add_server, add_dns}

abbrev pub count : String → ℕ
count String.[] = 0
count (String.◌∷◌ c s) = suc (count s)

abbrev all_legal : String → Bool
all_legal String.[] = true
all_legal (String.◌∷◌ c s) = is_name_char (code c) && all_legal s

-- One to 15 letters, digits, underscores, dashes and dots, and neither "." nor "..".
abbrev IsName : String → Type 0
IsName s =
    (all_legal s ≡ true)
    × (count s ≤ 15)
    × (str_eq s "" ≡ false)
    × (str_eq s "." ≡ false)
    × (str_eq s ".." ≡ false)

legal_chars-IsName :
    (room : ℕ) (s : String)
    → (all_legal (legal_chars room s) ≡ true) × (count (legal_chars room s) ≤ room)
unfolding legal_chars
legal_chars-IsName zero s = (refl, omega arith)
legal_chars-IsName (suc room) String.[] = (refl, omega arith)
legal_chars-IsName (suc room) (String.◌∷◌ c s) = elim (Bool-cases (is_name_char (code c))) [
  | inl legal ↦ ground (arith, legal, legal_chars-IsName room s)
  | inr illegal ↦ rw illegal (legal_chars-IsName (suc room) s)
]

fallback-IsName :
    (s : String)
    → (all_legal s ≡ true) × (count s ≤ 15)
    → IsName (if str_eq s "" || str_eq s "." || str_eq s ".." then "wg0" else s)
fallback-IsName s (legal, short) =
    elim (Bool-cases (str_eq s "" || str_eq s "." || str_eq s "..")) [
      | inl unusable ↦ rw unusable (refl, omega arith, refl, refl, refl)
      | inr usable ↦ rw usable (legal, short, ground arith, ground arith, ground arith)
    ]

pub iface_name-IsName : (name : String) → IsName (iface_name name)
unfolding iface_name
iface_name-IsName name = fallback-IsName (legal_chars 15 name) (legal_chars-IsName 15 name)

-- A key is unset or it is the form of 32 bytes.
abbrev IsKey : String → Type 0
IsKey k = (str_eq k "" || is_key k) ≡ true

module _ ⦃P : Parsers⦄ where
  -- A peer while it is read.
  abbrev pub IsPeer : WireGuardPeer → Type 0
  IsPeer p =
      IsKey p.public_key
      × IsKey p.preshared_key
      × ((str_eq p.endpoint "" || is_endpoint p.endpoint) ≡ true)
      × (p.persistent_keepalive ≤ 65535)

  abbrev pub IsSpec : WireGuardSpec → Type 0
  IsSpec w =
      IsKey w.private_key
      × (w.listen_port ≤ 65535)
      × (w.fw_mark ≤ 4294967295)
      × (w.mtu ≤ 65535)
      × All IsPeer w.peers
      × IsName w.interface_name

  abbrev pub IsCur : Option WireGuardPeer → Section → Type 0
  IsCur (some p) section = IsPeer p
  IsCur none peer_section = ⊥
  IsCur none _ = Unit

  abbrev pub IsParse : Parse → Type 0
  IsParse s = IsSpec s.spec × IsCur s.cur s.section

  abbrev pub IsStep : Step → Type 0
  IsStep (next s) = IsParse s
  IsStep (refused why) = Unit
  IsStep nil_peer = ⊥

  abbrev pub IsFullPeer : WireGuardPeer → Type 0
  IsFullPeer p =
      (is_key p.public_key ≡ true)
      × IsKey p.preshared_key
      × ((str_eq p.endpoint "" || is_endpoint p.endpoint) ≡ true)
      × (p.persistent_keepalive ≤ 65535)

  -- A profile that can be given to NetworkManager: every key that must be set is the form of 32
  -- bytes, and numbers and the interface's name are in range.
  abbrev pub IsUsable : WireGuardSpec → Type 0
  IsUsable w =
      (is_key w.private_key ≡ true)
      × (w.listen_port ≤ 65535)
      × (w.fw_mark ≤ 4294967295)
      × (w.mtu ≤ 65535)
      × All IsFullPeer w.peers
      × IsName w.interface_name

  abbrev pub IsResult : Result → Type 0
  IsResult (parsed w) = IsUsable w
  IsResult (invalid_conf e) = Unit
  IsResult panic = ⊥

  pub parse_uint-le : (s : String) (n : ℕ) → parse_uint s 65535 ≡ some n → n ≤ 65535
  unfolding parse_uint
  parse_uint-le String.[] n e = ground arith
  parse_uint-le (String.◌∷◌ c s) n e = ground arith

  pub parse_mark-le : (s : String) (n : ℕ) → parse_mark s ≡ some n → n ≤ 4294967295
  unfolding parse_mark
  parse_mark-le s n e = ground arith

  pub keepalive-le : (s : String) (n : ℕ) → keepalive s ≡ some n → n ≤ 65535
  unfolding keepalive
  keepalive-le s n e = ground (arith, parse_uint-le s n)

  -- A value continues where every value that is read does.
  pub with-IsStep {ℓ} :
      {A : Type ℓ} (o : Option A) (f : A → Step)
      → ((a : A) → o ≡ some a → IsStep (f a))
      → IsStep (with o f)
  with-IsStep none f h = tt
  with-IsStep (some a) f h = h a refl

  add_server-IsSpec :
      (o : Option Addr) (d : String) (w : WireGuardSpec) → IsSpec w → IsSpec (add_server o d w)
  unfolding add_server
  add_server-IsSpec none d w v = v
  add_server-IsSpec (some ip) d w v = v

  pub add_dns-IsSpec : (ds : List String) (w : WireGuardSpec) → IsSpec w → IsSpec (add_dns ds w)
  unfolding add_dns
  add_dns-IsSpec [] w v = v
  add_dns-IsSpec (d ∷ ds) w v =
      add_dns-IsSpec ds (add_server (P.read_addr d) d w) (add_server-IsSpec (P.read_addr d) d w v)
