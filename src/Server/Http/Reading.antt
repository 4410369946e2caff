-- ===== src/Server/Http/Reading.antt =====
-- The body of a request: it is read whole, up to a bound (apps/auth/src/server.ts, `readBody`).
use mathlib.Core.List.{append-nil, append_assoc}
use rsp_website.Prelude.{
  ℕ, ◌+◌, ◌≤◌, ◌≡◌, sym, ◌∙◌, ap, false, ◌||◌, List, [], ◌∷◌, ◌++◌, arith, leb, ltb, if◌then◌else◌,
  length, length-append, codes, Text, text_eq, Bool-cases, inl, inr,
}
use rsp_website.Lifecycle.Tx.{ok, err, body_too_large}
use rsp_website.Server.Http.{max_body_bytes, read_chunks, read_body}

pub joined : List (List ℕ) → List ℕ
joined [] = []
joined (chunk ∷ chunks) = chunk ++ joined chunks

read_chunks_lem :
    (chunks : List (List ℕ)) (body : List ℕ)
    → length body ≤ max_body_bytes
    → read_chunks chunks body (length body) ≡ (
        if leb (length (body ++ joined chunks)) max_body_bytes
        then ok (body ++ joined chunks)
        else err body_too_large)
unfolding read_chunks joined
read_chunks_lem [] body h = rw (append-nil body) (ground (arith, h))
read_chunks_lem (chunk ∷ chunks) body h =
    let sizes : length (body ++ chunk) ≡ length body + length chunk = length-append body chunk in
    let whole : length (body ++ chunk ++ joined chunks)
        ≡ length body + length chunk + length (joined chunks) =
      length-append (body ++ chunk) (joined chunks) ∙ omega (arith, sizes) in
    rw (← append_assoc body chunk (joined chunks))
      (elim (Bool-cases (ltb max_body_bytes (length body + length chunk))) [
        | inl over ↦ rw over (ground (arith, over, whole))
        | inr within ↦ rw within (
            ap (λ n. read_chunks chunks (body ++ chunk) n) (sym sizes)
            ∙ read_chunks_lem chunks (body ++ chunk) (ground (arith, within, sizes)))
      ])

-- A body that is not that of a GET or HEAD request is refused exactly if it has more than a mebibyte
-- in all, and otherwise read as its chunks in their order.
pub read_body_lem :
    (method : Text) (chunks : List (List ℕ))
    → text_eq method (codes "GET") || text_eq method (codes "HEAD") ≡ false
    → read_body method chunks ≡ (
        if leb (length (joined chunks)) max_body_bytes
        then ok (joined chunks)
        else err body_too_large)
unfolding read_body
read_body_lem method chunks other = rw other (read_chunks_lem chunks [] (omega arith))
