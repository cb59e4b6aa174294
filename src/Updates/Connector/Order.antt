-- ===== src/Updates/Connector/Order.antt =====
-- CompositeConnector of updates/connector.go: the stores come before the publisher.
use go_temporal_ai_sdk.Prelude.{Option, none, some}
use go_temporal_ai_sdk.Updates.Errors.{Err}
use go_temporal_ai_sdk.Updates.Types.{
  PreviewBeginEvent, PreviewSnapshotEvent, PreviewEndEvent, RecordUpsertEvent, StreamEndEvent,
  UpdateEvent, preview_begin, preview_snapshot, preview_end, record_upsert, stream_end,
}
use go_temporal_ai_sdk.Updates.Connector.{
  PreviewStore, RecordStore, LivePublisher, CompositeConnector, then, composite_begin_preview,
  composite_checkpoint_preview, composite_end_preview, composite_upsert_record,
  composite_end_stream, composite_publish_update,
}

module _ {ℓ} {W : Type 0} (J : W → Type ℓ) (Stored : UpdateEvent → W → Type ℓ) where
  -- What a store's action leaves: `J`, and the event in the store if there is no error.
  abbrev pub Persisted : UpdateEvent → Option Err × W → Type ℓ
  Persisted e (none, w) = J w × Stored e w
  Persisted e (some x, w) = J w

  pub record Persists (previews : PreviewStore W) (records : RecordStore W) : Type ℓ where
    pub begins :
        (e : PreviewBeginEvent) (w : W)
        → J w
        → Persisted (preview_begin e) (previews.begin_preview e w)
    pub checkpoints :
        (e : PreviewSnapshotEvent) (w : W)
        → J w
        → Persisted (preview_snapshot e) (previews.checkpoint_preview e w)
    pub ends :
        (e : PreviewEndEvent) (w : W) → J w → Persisted (preview_end e) (previews.end_preview e w)
    pub upserts :
        (e : RecordUpsertEvent) (w : W)
        → J w
        → Persisted (record_upsert e) (records.upsert_record e w)
    pub closes :
        (e : StreamEndEvent) (w : W) → J w → Persisted (stream_end e) (records.end_stream e w)

  then-keeps :
      (e : UpdateEvent) (publish : LivePublisher W) (stored : Option Err × W)
      → ((w : W) → J w → Stored e w → J (publish e w).1)
      → Persisted e stored
      → J (then stored (publish e)).1
  then-keeps e publish (none, w) p h = p w h.0 h.1
  then-keeps e publish (some x, w) p h = h

  -- A CompositeConnector publishes an event only after the store has taken it: let each action of the
  -- two stores keep `J` and, if it returns no error, leave its event stored, and let the publisher keep
  -- `J` on events that are stored; then the five storing methods keep `J`.
  pub composite-keeps :
      (previews : PreviewStore W) (records : RecordStore W) (publish : LivePublisher W)
      → Persists previews records
      → ((e : UpdateEvent) (w : W) → J w → Stored e w → J (publish e w).1)
      → (w : W) → J w
      → let c : CompositeConnector W = record {
        previews = some previews;
        records = some records;
        publisher = some publish;
      } in
        ((e : PreviewBeginEvent) → J (composite_begin_preview c e w).1)
        × ((e : PreviewSnapshotEvent) → J (composite_checkpoint_preview c e w).1)
        × ((e : PreviewEndEvent) → J (composite_end_preview c e w).1)
        × ((e : RecordUpsertEvent) → J (composite_upsert_record c e w).1)
        × ((e : StreamEndEvent) → J (composite_end_stream c e w).1)
  unfolding composite_begin_preview composite_checkpoint_preview composite_end_preview
      composite_upsert_record composite_end_stream composite_publish_update
  composite-keeps previews records publish s p w j = (
    λ e. then-keeps (preview_begin e) publish _ (p (preview_begin e)) (s.begins e w j),
    λ e. then-keeps (preview_snapshot e) publish _ (p (preview_snapshot e)) (s.checkpoints e w j),
    λ e. then-keeps (preview_end e) publish _ (p (preview_end e)) (s.ends e w j),
    λ e. then-keeps (record_upsert e) publish _ (p (record_upsert e)) (s.upserts e w j),
    λ e. then-keeps (stream_end e) publish _ (p (stream_end e)) (s.closes e w j),
  )
