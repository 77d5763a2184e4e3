-- ===== src/Replay/Captures.antt =====
-- The captures of packages/replay/src/stateweaver/replay/models.py: a state in layers, each with a digest of its
-- payload, and the fingerprint of them all. A payload is a number; its digest and that of the layers are arguments.
pub mod Fingerprints
use stateweaver.Common.{
  ℕ, Bool, true, false, not, List, [], ◌∷◌, map, Result, ok, err, raise_if, ◌>>=◌, ◌>>◌, ◌==◌, leb,
  unique, if◌then◌else◌,
}

pub data CaptureLayer : Type 0 where
  application database cache queue browser configuration clock : CaptureLayer

-- The place of a layer's name in the order of strings.
unfoldable pub layer_rank : CaptureLayer → ℕ
layer_rank application = 0
layer_rank browser = 1
layer_rank cache = 2
layer_rank clock = 3
layer_rank configuration = 4
layer_rank database = 5
layer_rank queue = 6

pub record StateArtifact : Type 0 where
  pub layer : CaptureLayer
  pub schema_version : ℕ
  pub payload : ℕ
  pub content_hash : ℕ

pub record StateCapture : Type 0 where
  pub capture_id : ℕ
  pub controlled_at : ℕ
  pub artifacts : List StateArtifact
  pub fingerprint : ℕ

-- What the fingerprint takes of an artifact.
pub record LayerSummary : Type 0 where
  pub layer : CaptureLayer
  pub schema_version : ℕ
  pub content_hash : ℕ

pub record CaptureDigests : Type 0 where
  pub payload : ℕ → ℕ
  pub capture : ℕ → List LayerSummary → ℕ

pub data CaptureError : Type 0 where
  content_differs layers_repeat fingerprint_differs : CaptureError

abbrev pub summary : StateArtifact → LayerSummary
summary a = record {
  layer = a.layer;
  schema_version = a.schema_version;
  content_hash = a.content_hash;
}

abbrev pub rank_of : LayerSummary → ℕ
rank_of s = layer_rank s.layer

unfoldable pub insert_summary : LayerSummary → List LayerSummary → List LayerSummary
insert_summary s [] = s ∷ []
insert_summary s (x ∷ xs) =
    let rest = insert_summary s xs in if leb (rank_of s) (rank_of x) then s ∷ x ∷ xs else x ∷ rest

-- `sorted(..., key=lambda item: str(item["layer"]))`.
unfoldable pub sort_summaries : List LayerSummary → List LayerSummary
sort_summaries [] = []
sort_summaries (s ∷ ss) = insert_summary s (sort_summaries ss)

abbrev pub canonical : List StateArtifact → List LayerSummary
canonical xs = sort_summaries (map summary xs)

abbrev pub ranks : List StateArtifact → List ℕ
ranks xs = map (λ (a : StateArtifact). layer_rank a.layer) xs

module _ (h : CaptureDigests) where
  -- `hash_matches_payload`.
  unfoldable pub validate_artifact : StateArtifact → Result CaptureError StateArtifact
  validate_artifact a = do
    raise_if (not (a.content_hash == h.payload a.payload)) content_differs
    ok a

  -- `StateArtifact.from_payload`.
  unfoldable pub from_payload :
      CaptureLayer → (payload schema_version : ℕ) → Result CaptureError StateArtifact
  from_payload layer payload schema_version = validate_artifact (record {
    layer = layer;
    schema_version = schema_version;
    payload = payload;
    content_hash = h.payload payload;
  })

  -- `fingerprint_matches_artifacts`.
  unfoldable pub validate_capture : StateCapture → Result CaptureError StateCapture
  validate_capture c = do
    raise_if (not (unique (ranks c.artifacts))) layers_repeat
    raise_if (not (c.fingerprint == h.capture c.controlled_at (canonical c.artifacts)))
        fingerprint_differs
    ok c

  -- `StateCapture.from_artifacts`.
  unfoldable pub from_artifacts :
      (capture_id controlled_at : ℕ) → List StateArtifact → Result CaptureError StateCapture
  from_artifacts capture_id controlled_at artifacts = validate_capture (record {
    capture_id = capture_id;
    controlled_at = controlled_at;
    artifacts = artifacts;
    fingerprint = h.capture controlled_at (canonical artifacts);
  })
