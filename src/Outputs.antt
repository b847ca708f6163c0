-- ===== src/Outputs.antt =====
-- harness/tools/output_store.py: a large tool output goes to a file of the workspace, and the events
-- carry a placeholder. Parameters: the JSON text of a value, its hash and its size in bytes, and
-- whether a write of the backend succeeds (it raises otherwise).
use Prim.Native.Char.{code}
use jagent.Base.{
  ℕ, zero, suc, String, Bool, true, Option, none, some, [], ◌∷◌, leb, nat_eq, concat, if◌then◌else◌,
  length,
}
use jagent.Values.{Value, field, end, obj, str, bool, num, pos}
use jagent.Plan.{codes}

-- s.replace("\n", " ")
one_line : String → String
one_line String.[] = String.[]
one_line (String.◌∷◌ c s) =
    let rest = one_line s in
    if nat_eq (code c) 10 then concat (" " ∷ rest ∷ []) else String.◌∷◌ c rest

-- s[:n]
unfoldable pub take : ℕ → String → String
take zero s = String.[]
take (suc n) String.[] = String.[]
take (suc n) (String.◌∷◌ c s) = String.◌∷◌ c (take n s)

pub record Blob : Type 0 where
  pub ref : String
  pub sha256 : String
  pub bytes : ℕ
  pub summary : String
  pub truncated : Bool

-- What OutputBlobStore.store does: nothing, a blob, or an exception of the backend.
pub data Stored : Type 0 where
  inline write_failed : Stored
  stored : Blob → Stored

pub record BlobStore : Type 0 where
  pub dumps : Value → String
  pub sha256 : String → String
  pub utf8_size : String → ℕ
  pub write : Option (String → String → Bool)
  pub inline_max_chars : ℕ

module _ (blobs : BlobStore) where
  unfoldable pub summarize_output : Value → ℕ → String
  unfolding one_line take codes concat
  summarize_output output max_chars =
      let text = one_line (blobs.dumps output) in
      if leb (length (codes text)) max_chars
      then text
      else concat (take max_chars text ∷ "...(truncated)" ∷ [])

  blob_of : Value → Blob
  unfolding summarize_output concat
  blob_of output =
      let digest = blobs.sha256 (blobs.dumps output) in
      record {
        ref = concat (digest ∷ ".json" ∷ []);
        sha256 = digest;
        bytes = blobs.utf8_size (blobs.dumps output);
        summary =
            summarize_output output
              (if leb blobs.inline_max_chars 120 then blobs.inline_max_chars else 120);
        truncated = true;
      }

  -- OutputBlobStore.store
  unfoldable pub store : Value → Stored
  unfolding blob_of codes concat
  store output = elim blobs.write [
    | none ↦ inline
    | some write ↦
        if leb (length (codes (blobs.dumps output))) blobs.inline_max_chars
        then inline
        else if write (concat (".harness_outputs/" ∷ (blob_of output).ref ∷ []))
            (blobs.dumps output)
        then stored (blob_of output)
        else write_failed
  ]

unfoldable pub build_ref_placeholder : Blob → Value
unfolding take
build_ref_placeholder blob = obj (
    field "truncated" (bool blob.truncated) (
      field "ref" (str blob.ref) (
        field "sha256" (str blob.sha256) (
          field "bytes" (num (pos blob.bytes)) (
            field "summary" (str (take 300 blob.summary)) (
              field "note" (str "full output offloaded to blob; use fetch_output(ref) to retrieve")
                end))))))
