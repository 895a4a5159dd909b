-- ===== src/Imaging/Imager/Chunks.antt =====
-- What a run over the chunks leaves in the map: the hash of every chunk's bytes.
use Prim.Native.String.{String}
use native.Mathlib.Decide.{ℕ_discrete}
use reclaim.Prelude.{
  ℕ, zero, suc, ◌+◌, ◌*◌, ◌≤◌, ◌<◌, min, ◌≡◌, refl, sym, ◌∙◌, ◌⊎◌, inl, inr, true, false, ◌&&◌,
  Option, some, List, [], ◌∷◌, ◌++◌, arith, leb, ◌==◌, if◌then◌else◌, Bool-cases, length, get_elem?,
  set, length-set, u32_max, get_elem?-set_self, get_elem?-set_ne,
}
use reclaim.Imaging.Types.{Compression, is_chunk_done, new}
use reclaim.Imaging.Dest.{ImageDest, write_chunk, write_raw, write_frame, all_zeros, write_all_at}
use reclaim.Imaging.Imager.{
  Job, Progress, Outcome, read_chunk, checkpoint, chunk_len, image_chunk, image_loop, record_chunk,
}

hashes-checkpoint : (p : Progress) → (checkpoint p).map.chunk_hashes ≡ p.map.chunk_hashes
unfolding checkpoint
hashes-checkpoint p = elim (Bool-cases (leb 64 p.since_checkpoint)) [
  | inl due ↦ rw due refl
  | inr not_yet ↦ rw not_yet refl
]

-- The bytes of chunk `i`, after the retries.
abbrev pub chunk_bytes : Job → ℕ → List ℕ
chunk_bytes job i =
    (read_chunk job.src job.opts job.sector (i * job.chunk_size) (chunk_len job i)).1

abbrev pub chunk_hash : Job → ℕ → Option (Option String)
chunk_hash job i = some (some (job.hash job.algo (chunk_bytes job i)))

-- No write is refused, and everything can be compressed.
pub record Writes (job : Job) : Type 0 where
  pub accepts : (offset : ℕ) (bytes : List ℕ) → job.fails offset bytes ≡ false
  pub packs : (bytes : List ℕ) → (packed : List ℕ) × (job.compress bytes ≡ some packed)

write_chunk-Writes :
    (job : Job) (d : ImageDest) (offset : ℕ) (bytes : List ℕ)
    → Writes job
    → (d' : ImageDest) × (write_chunk job.compress job.fails d offset bytes ≡ some d')
unfolding write_chunk write_raw write_frame
write_chunk-Writes job d offset bytes w = elim (compression_cases d.compression) [
  | inl raw ↦ elim (Bool-cases (d.sparse && all_zeros bytes)) [
    | inl hole ↦ (d, rw (raw, hole) refl)
    | inr solid ↦ (
      record d { file = write_all_at d.file offset bytes },
      rw (raw, solid, w.accepts offset bytes) refl,
    )
  ]
  | inr framed ↦
      let (packed, e) = w.packs bytes in
      (
        record d {
          file = write_all_at d.file d.append_cursor packed;
          append_cursor = d.append_cursor + length packed;
          frames =
              d.frames
              ++ (record {
                image_offset = offset;
                file_offset = d.append_cursor;
                uncompressed_len = min (length bytes) u32_max;
                compressed_len = min (length packed) u32_max;
              }
                  ∷ []);
        },
        rw (framed, e, write_frame, w.accepts d.append_cursor packed) refl,
      )
]
  where
    compression_cases : (c : Compression) → (c ≡ Compression.uncompressed) ⊎ (c ≡ Compression.zstd)
    compression_cases Compression.uncompressed = inl refl
    compression_cases Compression.zstd = inr refl

image_chunk-Writes :
    (job : Job) (i : ℕ) (p : Progress)
    → Writes job
    → (p' : Progress) × (image_chunk job i p ≡ some p')
      × (p'.map.chunk_hashes
          ≡ set p.map.chunk_hashes i (some (job.hash job.algo (chunk_bytes job i))))
unfolding image_chunk
image_chunk-Writes job i p w =
    let (dest, written) =
      write_chunk-Writes job p.dest (i * job.chunk_size) (chunk_bytes job i) w in
    let read = read_chunk job.src job.opts job.sector (i * job.chunk_size) (chunk_len job i) in
    (
      checkpoint (record_chunk job i read p dest),
      rw (written, image_chunk) refl,
      hashes-checkpoint (record_chunk job i read p dest) ∙ (unfold record_chunk in refl),
    )

module _ (job : Job) (left i : ℕ) (p : Progress) where
  loop_skips :
      job.cancel i ≡ false
      → is_chunk_done p.map i ≡ true
      → image_loop job (suc left) i p ≡ image_loop job left (i + 1) p
  unfolding image_loop
  loop_skips going done = rw (going, done) refl

  loop_images :
      (p' : Progress)
      → job.cancel i ≡ false
      → is_chunk_done p.map i ≡ false
      → (chunk_len job i == 0) ≡ false
      → image_chunk job i p ≡ some p'
      → image_loop job (suc left) i p ≡ image_loop job left (i + 1) p'
  unfolding image_loop
  loop_images p' going fresh full e = rw (going, fresh, full, e, image_loop) refl

-- The hash that chunk `j` ends up with: the one it had, or that of its bytes.
abbrev pub final_hash : Job → Progress → ℕ → Option (Option String)
final_hash job p j =
    if is_chunk_done p.map j then get_elem? p.map.chunk_hashes j else chunk_hash job j

-- The loop, from round `i` on: the hashes of the chunks that are left, and those before `i`.
record Hashed (job : Job) (left i : ℕ) (p : Progress) : Type 0 where
  result : Progress
  ends : image_loop job left i p ≡ Outcome.finished result
  hashes : (j : ℕ) → i ≤ j → j < i + left → get_elem? result.map.chunk_hashes j ≡ final_hash job p j
  before : (j : ℕ) → j < i → get_elem? result.map.chunk_hashes j ≡ get_elem? p.map.chunk_hashes j

Hashed-skip :
    (job : Job) (left i : ℕ) (p : Progress)
    → job.cancel i ≡ false
    → is_chunk_done p.map i ≡ true
    → Hashed job left (i + 1) p
    → Hashed job (suc left) i p
Hashed-skip job left i p going done h = record {
  result = h.result;
  ends = loop_skips job left i p going done ∙ h.ends;
  hashes = λ j a b. elim (ℕ_discrete i j) [
    | yes e ↦ rw (sym e, done) (h.before i (omega arith))
    | no ne ↦ h.hashes j (omega arith) (omega arith)
  ];
  before = λ j a. h.before j (omega arith);
}

Hashed-image :
    (job : Job) (left i : ℕ) (p p' : Progress)
    → job.cancel i ≡ false
    → is_chunk_done p.map i ≡ false
    → (chunk_len job i == 0) ≡ false
    → image_chunk job i p ≡ some p'
    → p'.map.chunk_hashes ≡ set p.map.chunk_hashes i (some (job.hash job.algo (chunk_bytes job i)))
    → i < length p.map.chunk_hashes
    → Hashed job left (i + 1) p'
    → Hashed job (suc left) i p
unfolding is_chunk_done
Hashed-image job left i p p' going fresh full e new lt h = record {
  result = h.result;
  ends = loop_images job left i p p' going fresh full e ∙ h.ends;
  hashes = λ j a b. elim (ℕ_discrete i j) [
    | yes same ↦
        rw (sym same, fresh)
          (h.before i (omega arith) ∙ rw new (get_elem?-set_self p.map.chunk_hashes i _ lt))
    | no ne ↦
        let kept : get_elem? p'.map.chunk_hashes j ≡ get_elem? p.map.chunk_hashes j =
          rw new (get_elem?-set_ne p.map.chunk_hashes _ ne) in
        h.hashes j (omega arith) (omega arith) ∙ rw kept refl
  ];
  before = λ j a.
      h.before j (omega arith)
      ∙ rw new (get_elem?-set_ne p.map.chunk_hashes _ (λ e'. absurd (omega arith)));
}

loop-Hashed :
    (job : Job) (left i : ℕ) (p : Progress)
    → ((k : ℕ) → job.cancel k ≡ false)
    → Writes job
    → ((k : ℕ) → k < i + left → 0 < chunk_len job k)
    → i + left ≡ length p.map.chunk_hashes
    → Hashed job left i p
loop-Hashed job zero i p going w inside all = record {
  result = p;
  ends = unfold image_loop in refl;
  hashes = λ j a b. absurd (omega arith);
  before = λ j a. refl;
}
loop-Hashed job (suc left) i p going w inside all = elim (Bool-cases (is_chunk_done p.map i)) [
  | inl done ↦
      Hashed-skip job left i p (going i) done
        (loop-Hashed job left (i + 1) p going w (λ k a. inside k (omega arith)) (omega arith))
  | inr fresh ↦
      let (p', e, new) = image_chunk-Writes job i p w in
      let size : length p'.map.chunk_hashes ≡ length p.map.chunk_hashes =
        rw new (length-set p.map.chunk_hashes i _) in
      Hashed-image job left i p p' (going i) fresh (ground (arith, inside i (omega arith))) e new
        (omega arith)
        (loop-Hashed job left (i + 1) p' going w (λ k a. inside k (omega arith))
          (omega (arith, size)))
]

-- A run over all the chunks of a map that is not cancelled and whose writes and compressions all
-- succeed finishes, as long as every chunk has a byte of the source; a chunk that was not done then
-- has the hash of its bytes after the retries, and one that was done keeps its hash.
pub image_loop_lem :
    (job : Job) (p : Progress) (j : ℕ)
    → ((k : ℕ) → job.cancel k ≡ false)
    → Writes job
    → ((k : ℕ) → k < length p.map.chunk_hashes → 0 < chunk_len job k)
    → j < length p.map.chunk_hashes
    → (p' : Progress) × (image_loop job (length p.map.chunk_hashes) 0 p ≡ Outcome.finished p')
      × (get_elem? p'.map.chunk_hashes j ≡ final_hash job p j)
image_loop_lem job p j going w inside lt =
    let h =
      loop-Hashed job (length p.map.chunk_hashes) 0 p going w (λ k a. inside k (omega arith))
        (omega arith) in
    (h.result, h.ends, h.hashes j (omega arith) (omega arith))
