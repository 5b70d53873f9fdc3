-- ===== src/Message.antt =====
-- The messages of github.com/miekg/dns that the program reads and writes: the fields that it
-- names. What that library and the Redis client compute is a parameter.
use dns_filter.Prelude.{ℕ, ◌≡◌, Bool, false, List, [], Option, Text}
use dns_filter.Identity.{Ip}

pub record Question : Type 0 where
  pub name : Text
  pub qtype : ℕ

pub record Header : Type 0 where
  pub name : Text
  pub rrtype : ℕ
  pub class : ℕ
  pub ttl : ℕ

pub data Rr : Type 0 where
  a : Header → Ip → Rr
  aaaa : Header → Ip → Rr
  other : Header → Rr

abbrev pub header : Rr → Header
header (a h _) = h
header (aaaa h _) = h
header (other h) = h

pub record Msg : Type 0 where
  pub question : List Question
  pub rcode : ℕ
  pub authoritative : Bool
  pub answer : List Rr

-- new(dns.Msg)
abbrev pub new_msg : Msg
new_msg = record { question = []; rcode = 0; authoritative = false; answer = [] }

abbrev pub type_a : ℕ
type_a = 1

abbrev pub type_aaaa : ℕ
type_aaaa = 28

abbrev pub class_inet : ℕ
class_inet = 1

abbrev pub rcode_success : ℕ
rcode_success = 0

abbrev pub rcode_server_failure : ℕ
rcode_server_failure = 2

-- The functions of the library that the program calls: `set_reply m r` is `m.SetReply(r)`,
-- `set_rcode m r c` is `m.SetRcode(r, c)`.
pub record DnsLib : Type 0 where
  pub set_reply : Msg → Msg → Msg
  pub set_rcode : Msg → Msg → ℕ → Msg
  pub fqdn : Text → Text
  pub type_to_string : ℕ → Text
  pub pack : Msg → Option (List ℕ)
  pub unpack : List ℕ → Option Msg

-- What its documentation says of them: a reply to a request keeps the answers that the message
-- has and says NOERROR; an error reply has the code that it is given, and no answers of its own.
pub record IsLawful (lib : DnsLib) : Type 0 where
  pub reply_answer : (m r : Msg) → (lib.set_reply m r).answer ≡ m.answer
  pub reply_rcode : (m r : Msg) → (lib.set_reply m r).rcode ≡ rcode_success
  pub rcode_answer : (m r : Msg) (c : ℕ) → (lib.set_rcode m r c).answer ≡ m.answer
  pub rcode_rcode : (m r : Msg) (c : ℕ) → (lib.set_rcode m r c).rcode ≡ c
