-- ===== src/Message.antt =====
-- aMsg.cpp and aMsg.h: the messages to the store threads. The hash function is a parameter.
use acached.Prelude.{
  ℕ, ◌+◌, ◌-◌, List, ◌∷◌, ◌++◌, Option, none, some, ◌==◌, leb, if◌then◌else◌, length, take, drop,
  replicate, set,
}
use acached.Queue.{Ptr, null}
use acached.Parse.Command.{CmdType}
use acached.Parse.Header.{strncpy, key_array_size}

pub data MsgType : Type 0 where
  process_command kvdata error success nop : MsgType

-- The member `KVdataSet` of the union `IN`, and `ErrBuf` of the union `OUT`. `cmdptr` is the memory
-- that it points to, `none` for `NULL`.
pub record Msg : Type 0 where
  pub type : MsgType
  pub ctype : CmdType
  pub a_c : Ptr
  pub result : ℕ
  pub errnum : ℕ
  pub key : List ℕ
  pub keylen : ℕ
  pub hashval : ℕ
  pub kv_dataptr : Ptr
  pub cmdptr : Option (List ℕ)
  pub flag : ℕ
  pub exptime : ℕ
  pub vallen : ℕ
  pub errbuf : List ℕ

abbrev pub max_errbuf_len : ℕ
max_errbuf_len = 80

unfoldable pub init : MsgType → Ptr → CmdType → Msg
init type a_c ctype = record {
  type = type;
  ctype = ctype;
  a_c = a_c;
  result = 0;
  errnum = 0;
  key = replicate key_array_size 0;
  keylen = 0;
  hashval = 0;
  kv_dataptr = null;
  cmdptr = none;
  flag = 0;
  exptime = 0;
  vallen = 0;
  errbuf = replicate max_errbuf_len 0;
}

-- `snprintf` of a text without conversions: cut to the length with its NUL.
unfoldable pub set_errbuf : List ℕ → Msg → Msg
set_errbuf errstr m =
    let text = take (max_errbuf_len - 1) errstr in
    record m { errbuf = text ++ 0 ∷ drop (length text + 1) m.errbuf }

module _ (hash : List ℕ → ℕ) where
  -- `none` when the terminating NUL does not fit into the key's array. A hash value that is given is
  -- not stored.
  unfoldable pub msg_hdr_in_init : List ℕ → ℕ → ℕ → Msg → Option Msg
  unfolding strncpy
  msg_hdr_in_init key keylen hashval m =
      let stored = set (strncpy key keylen ++ drop keylen m.key) keylen 0 in
      let hashed = if hashval == 0 then hash (take keylen stored) else m.hashval in
      if leb key_array_size keylen
      then none
      else some record m { key = stored; keylen = keylen; hashval = hashed; kv_dataptr = null }
