-- ===== src/Worker/Body.antt =====
-- internal/worker/worker.go: the loop of executeJob that reads the response's body.
use taskqueue_go.Prelude.{
  ℕ, ◌+◌, ◌≤◌, ◌≡◌, refl, true, List, [], ◌∷◌, ◌++◌, arith, length, length-append, All,
}
use taskqueue_go.Worker.Http.{Chunk}
use taskqueue_go.Worker.Execute.{read_body}

-- Read fills a buffer of 512 bytes.
abbrev pub FitsBuffer : Chunk → Type 0
FitsBuffer chunk = length chunk.bytes ≤ 512

-- However much the server sends, in chunks of at most 512 bytes, the body that is kept is at most
-- one buffer longer than 64 KB, if it was at most 64 KB long before.
pub length-read_body-le :
    (body : List ℕ) (chunks : List Chunk)
    → length body ≤ 65_536
    → All FitsBuffer chunks
    → length (read_body body chunks) ≤ 65_536 + 512
unfolding read_body
length-read_body-le body [] h all = omega arith
length-read_body-le body (chunk ∷ chunks) h (fits, all) =
    ground
      (arith, length-append body chunk.bytes, length-read_body-le (body ++ chunk.bytes) chunks, all)

-- A body that ends within 64 KB is kept whole.
pub read_body_whole :
    (body bytes : List ℕ) (chunks : List Chunk)
    → read_body body (record { bytes = bytes; ended = true } ∷ chunks) ≡ body ++ bytes
unfolding read_body
read_body_whole body bytes chunks = refl
