-- ===== src/Client/Responses.antt =====
-- What a response changes: the client's output buffer, and nothing else.
use mathlib.Core.Path.{subst}
use ftpserv_u.Prelude.{
  Ensures, Ensures-bind, Ensures-of, ℤ, ℕ, ◌+◌, ◌≡◌, some, ◌++◌, done, arith, leb, if◌then◌else◌,
  Out-cases, inl, inr, length,
}
use ftpserv_u.Memory.{Bytes}
use ftpserv_u.IoBuffer.{IoBuffer, append}
use ftpserv_u.IoBuffer.Contents.{IsValid, contents, append_lem}
use ftpserv_u.Client.{Client, ftp_response, Session, respond, response_text}

-- The session with another output buffer.
abbrev pub with_output : Session → IoBuffer → Session
with_output s b = record s { client = record s.client { output_buffer = b } }

pub respond-frame :
    (code : ℕ) (msg : Bytes) (s : Session) {s' : Session}
    → respond code msg s ≡ done s'
    → s' ≡ with_output s s'.client.output_buffer
unfolding respond
respond-frame code msg s {s'} h =
    elim (Out-cases (append s.client.output_buffer (some (response_text code msg)))) [
      | inl e ↦ ground arith
      | inr (p, e) ↦ ground arith
    ]

-- The output buffer once a response has been offered to it.
pub record Offered (s : Session) (text : Bytes) (b : IoBuffer) : Type 0 where
  pub valid : IsValid b
  pub same_size : b.size ≡ s.client.output_buffer.size
  pub held : contents b ≡ (
      if leb (length (contents s.client.output_buffer) + length text) s.client.output_buffer.size
      then contents s.client.output_buffer ++ text
      else contents s.client.output_buffer)

-- On a valid output buffer a response never faults. Its text is queued behind what is there, or
-- dropped whole if it does not fit, and nothing else of the session changes.
pub respond-Offered :
    (code : ℕ) (msg : Bytes) (s : Session)
    → IsValid s.client.output_buffer
    → (b : IoBuffer) × (respond code msg s ≡ done (with_output s b))
      × Offered s (response_text code msg) b
unfolding respond
respond-Offered code msg s v =
    let (b, e, valid, held, size, line) = append_lem (response_text code msg) v in
    (b, ground arith, record { valid = valid; same_size = size; held = held })

-- What holds of a client with another output buffer, which is valid if the one before was, holds
-- behind a response.
pub ftp_response_lem :
    (P : Client → Type 0) (code : ℕ) (c : Client) (msg : Bytes)
    → ((b : IoBuffer) → (IsValid c.output_buffer → IsValid b) → P (record c { output_buffer = b }))
    → Ensures P (ftp_response code c msg)
unfolding ftp_response
ftp_response_lem P code c msg k =
    let Valid = λ (r : ℤ × IoBuffer). IsValid c.output_buffer → IsValid r.1 in
    let text = response_text code msg in
    Ensures-bind Valid P (append c.output_buffer (some text)) _
      (Ensures-of Valid (append c.output_buffer (some text)) (λ (result, b) e v.
        let (b', f, valid, _, _, _) = append_lem text v in
        let is : b' ≡ b = ground arith in subst IsValid is valid))
      (λ (result, b) valid. k b valid)
