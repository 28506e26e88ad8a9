-- ===== src/Client/Streams.antt =====
-- src/immich_bridge/immich_client.py, `CachedRangeStream` and `ImmichOriginalStream`: files that are
-- read at absolute offsets, from a cached range or from a response that arrives in chunks.
pub mod Agree
use immich_bridge.Prelude.{
  ℕ, zero, suc, ◌+◌, ◌-◌, Bool, true, false, not, ◌&&◌, ◌||◌, Option, none, some, List, [], ◌∷◌,
  ◌++◌, length, take, drop, ltb, leb, ◌==◌, if◌then◌else◌,
}

-- What a method gives: a value, or the `OSError` of a seek, or the error of a broken response.
pub data Io {ℓ} (A : Type ℓ) : Type ℓ where
  done : A → Io A
  os_error http_error : Io A

-- The open stream of a cached range; `end` is the offset of its last byte plus one, as the sizes of the
-- source are `end + 1`.
pub record CachedRangeStream : Type 0 where
  pub content : List ℕ
  pub start : ℕ
  pub stop : ℕ
  pub position : ℕ

-- `seek(offset)`; the stream only takes absolute offsets
unfoldable pub seek : ℕ → CachedRangeStream → Io ℕ × CachedRangeStream
seek offset st =
    if ltb offset st.start || ltb st.stop offset
    then (os_error, st)
    else (done offset, record st { position = offset })

-- `data[relative_start:]`, and the same up to a size; no size reads everything
abbrev pub up_to {ℓ} : {A : Type ℓ} → Option ℕ → List A → List A
up_to none xs = xs
up_to (some size) xs = take size xs

unfoldable pub read : Option ℕ → CachedRangeStream → List ℕ × CachedRangeStream
read size st =
    let relative_start = st.position - st.start in
    let bytes = up_to size (drop relative_start st.content) in
    if leb (length st.content) relative_start
    then ([], st)
    else (bytes, record st { position = st.position + length bytes })

-- What is left of a response: its chunks, and whether it breaks after them.
pub record Response : Type 0 where
  pub chunks : List (List ℕ)
  pub breaks : Bool

pub record ImmichOriginalStream : Type 0 where
  pub rest : Response
  pub buffer : List ℕ
  pub position : ℕ
  pub started_reading : Bool
  pub range_end : Option ℕ

abbrev pub joined : List (List ℕ) → List ℕ
joined [] = []
joined (c ∷ cs) = c ++ joined cs

-- `while len(self._buffer) < size`: the buffer, and the chunks that are left; the flag says that the
-- response broke.
unfoldable pub fill : ℕ → List ℕ → List (List ℕ) → Bool → List ℕ × List (List ℕ) × Bool
fill size buffer [] breaks =
    if ltb (length buffer) size then (buffer, [], breaks) else (buffer, [], false)
fill size buffer (chunk ∷ chunks) breaks =
    let rest = fill size (buffer ++ chunk) chunks breaks in
    if ltb (length buffer) size then rest else (buffer, chunk ∷ chunks, false)

-- `read()` of all that is left; a response that broke gives nothing more
unfoldable pub read_all : ImmichOriginalStream → Io (List ℕ) × ImmichOriginalStream
read_all st =
    let bytes = st.buffer ++ joined st.rest.chunks in
    let emptied = record st {
      buffer = [];
      started_reading = true;
      rest = record { chunks = []; breaks = false };
    } in
    if st.rest.breaks
    then (http_error, emptied)
    else (done bytes, record emptied { position = st.position + length bytes })

-- The stream after the chunks that a read of `size` bytes takes.
unfoldable pub filled : ℕ → ImmichOriginalStream → ImmichOriginalStream × Bool
unfolding fill
filled size st =
    let (buffer, chunks, broke) = fill size st.buffer st.rest.chunks st.rest.breaks in
    (
      record st {
        buffer = buffer;
        started_reading = true;
        rest = record { chunks = chunks; breaks = if broke then false else st.rest.breaks };
      },
      broke,
    )

-- `data = bytes(self._buffer[:size])`, and what follows it
unfoldable pub take_bytes : ℕ → ImmichOriginalStream → Io (List ℕ) × ImmichOriginalStream
take_bytes size st = (
  done (take size st.buffer),
  record st { buffer = drop size st.buffer; position = st.position + length (take size st.buffer) },
)

-- `read(size)`
unfoldable pub read_some : ℕ → ImmichOriginalStream → Io (List ℕ) × ImmichOriginalStream
unfolding filled take_bytes
read_some size st =
    let (after, broke) = filled size st in
    if broke then (http_error, after) else take_bytes size after

-- The original stream's `seek`. `reopen` is the response from an offset on, as
-- `_open_original_response` gives it, or its `ImmichApiError`; the old response is closed by then.
unfoldable pub seek_original :
    (ℕ → Option ℕ → Option Response) → ℕ → ImmichOriginalStream → Io ℕ × ImmichOriginalStream
seek_original reopen offset st =
    if (offset == st.position) && not st.started_reading
    then (done offset, st)
    else elim (reopen offset st.range_end) [
      | none ↦ (http_error, record st { rest = record { chunks = []; breaks = true } })
      | some response ↦ (
        done offset,
        record st { rest = response; buffer = []; position = offset; started_reading = false },
      )
    ]
