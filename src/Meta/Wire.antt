-- ===== src/Meta/Wire.antt =====
-- What internal/adapters/meta/client.go exchanges with Meta: requests, answers, and the state of one
-- use of the client. The network, the context and the clock are the record `NetEnv`; what the
-- standard library does to bytes is the record `Wire`.
use meta_mcp.Prelude.{ℕ, String, List, [], Option}
use meta_mcp.Crypto.{Bytes}
use meta_mcp.Domain.Time.{Time, Duration}
use meta_mcp.Domain.Errors.{Error}
use meta_mcp.Exec.{Exec}

pub data Method : Type 0 where
  get_method post_method : Method

-- `url.Values` with one value for each key; `Encode` sorts the keys.
abbrev pub Params : Type 0
Params = List (String × String)

-- The request that is built: a GET has `url`, `sep` and the encoded parameters in its address, a POST
-- has them in its body.
pub record Sent : Type 0 where
  pub method : Method
  pub url : String
  pub sep : String
  pub params : Params

pub record Answer : Type 0 where
  pub status : ℕ
  pub body : Bytes
  -- the header, or ""
  pub retry_after : String

-- `http.NewRequest` fails and nothing is sent, `Do` fails, the body cannot be read, or Meta answers.
pub data Exchange : Type 0 where
  unbuilt unanswered unread : Error → Exchange
  answered : Answer → Exchange

pub record NetEnv : Type 0 where
  pub wire : ℕ → Sent → Exchange
  -- `some (ctx.Err())` where the context is done before the wait ends
  pub done : ℕ → Option Error
  pub now : ℕ → Time

-- The requests that were sent and the waits that ended, last first.
pub record Net : Type 0 where
  pub sent : List Sent
  pub waits : List Duration
  pub step : ℕ

abbrev pub idle : Net
idle = record { sent = []; waits = []; step = 0 }

abbrev pub Talk : Type 0 → Type 0
Talk A = Exec Net Error A

-- The text of a JSON value that is decoded later (`json.RawMessage`).
abbrev pub Raw : Type 0
Raw = String

pub record ErrorEnvelope : Type 0 where
  pub message : String
  pub kind : String
  pub code : ℕ
  pub subcode : ℕ
  pub trace_id : String

-- A page of a list endpoint; `next` is "" on the last one.
pub record ListBody : Type 0 where
  pub items : List Raw
  pub next : String
