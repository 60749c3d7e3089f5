-- ===== src/Wire/Session.antt =====
-- A watch from the agent to the client: src/watch.rs (`LocalWatch::next`), the loop of
-- crates/rpc/src/handler.rs that pushes its updates, and the listener of src/remote/mod.rs.
use uniproc_windows_agent.Base.{List, [], ◌∷◌, Option, none, some, map, Beq, ◌≡◌, refl}
use uniproc_windows_agent.Model.{ProcessState}
use uniproc_windows_agent.Api.{Changes, ProcessInfo, Snapshot}
use uniproc_windows_agent.Sample.Metrics.{Sets}
use uniproc_windows_agent.Sample.{MetricSpec, Sample, project}
use uniproc_windows_agent.Watch.{changes, info_key}
use uniproc_windows_agent.Watch.Diff.{IsSnapshot}
use uniproc_windows_agent.Wire.Outcome.{Decoded, decoded, refused, ◌>>=◌}
use uniproc_windows_agent.Wire.Schema.Lists.{ProcessInfoMessage, ProcessStateMessage}
use uniproc_windows_agent.Wire.Schema.Machine.{MachineSampleMessage}
use uniproc_windows_agent.Wire.Schema.Samples.{ProcessColumnsMessage}
use uniproc_windows_agent.Wire.Schema.Updates.{ListsUpdateMessage}
use uniproc_windows_agent.Wire.Encode
use uniproc_windows_agent.Wire.Decode
use uniproc_windows_agent.Wire.RoundTrip.Delta.{IsUnique}
use uniproc_windows_agent.Wire.RoundTrip.Projected.{received, sample_sent}
use uniproc_windows_agent.Wire.RoundTrip.Updates.{IsMatched, IsTagged, first_update, update_heard}

pub record Update (S : Sets) : Type 0 where
  pub snapshot : Snapshot
  pub sample : Sample S
  pub changes : Changes

pub record UpdateMessage : Type 0 where
  pub lists : ListsUpdateMessage
  pub processes : ProcessColumnsMessage
  pub machine : MachineSampleMessage

-- `ListenerImpl`, without the channel it delivers to and the session it reads afresh through.
pub record Listener (S : Sets) : Type 0 where
  pub spec : MetricSpec S
  pub snapshot : Option Snapshot

module _ {S : Sets} where
  -- The part of `ListenerImpl::decode` behind the lists; the snapshot changes last.
  unfoldable pub take_update :
      Listener S
      → UpdateMessage
      → Option (Snapshot × Changes)
      → Decoded (Option (Update S) × Listener S)
  take_update listener message none = decoded (none, listener)
  take_update listener message (some (snapshot, changes)) = do
    sample ← Decode.Samples.sample message.processes message.machine listener.spec
    decoded (
      some (record { snapshot = snapshot; sample = sample; changes = changes }),
      record listener { snapshot = some snapshot },
    )

  unfoldable pub decode_update :
      Listener S → UpdateMessage → Decoded (Option (Update S) × Listener S)
  decode_update listener message = do
    found ← Decode.Updates.lists listener.snapshot message.lists
    take_update listener message found

module _ {S : Sets} ⦃i : Beq ProcessInfo⦄ ⦃s : Beq ProcessState⦄ (blank_info : ProcessInfoMessage)
    (blank_state : ProcessStateMessage) (spec : MetricSpec S) where
  -- What `LocalWatch::next` makes of what is published.
  unfoldable pub next : Option Snapshot → Snapshot × Sample S → Update S
  next last published = record {
    snapshot = published.0;
    sample = project spec published.1;
    changes = changes last published.0;
  }

  unfoldable pub encode_update : Update S → Option Snapshot → UpdateMessage
  encode_update update before = record {
    lists = Encode.Updates.update blank_info blank_state update.snapshot update.changes before;
    processes = Encode.Samples.process_columns update.sample;
    machine = Encode.Samples.machine_sample update.sample;
  }

  -- The updates that arrive while the agent pushes what is published, and the listener after them;
  -- an update that is not taken over ends it. `last` is the watch's, `before` the loop's.
  unfoldable pub push :
      (last before : Option Snapshot)
      → Listener S
      → List (Snapshot × Sample S)
      → List (Update S) × Listener S
  push last before listener [] = ([], listener)
  push last before listener (p ∷ ps) =
      let update = next last p in
      elim (decode_update listener (encode_update update before)) [
        | refused why ↦ ([], listener)
        | decoded (none, after) ↦ ([], after)
        | decoded (some taken, after) ↦
            let (more, end) = push (some p.0) (some update.snapshot) after ps in (taken ∷ more, end)
      ]

  -- What each update should say.
  abbrev pub told : Option Snapshot → List (Snapshot × Sample S) → List (Update S)
  told last [] = []
  told last (p ∷ ps) =
      record {
        snapshot = p.0;
        sample = received spec (project spec p.1);
        changes = changes last p.0;
      }
      ∷ told (some p.0) ps

  abbrev pub latest_of : Option Snapshot → List (Snapshot × Sample S) → Option Snapshot
  latest_of last [] = last
  latest_of last (p ∷ ps) = latest_of (some p.0) ps

  -- What may be published after what was.
  abbrev pub IsNext : Option Snapshot → Snapshot → Type 0
  IsNext none after = after.states.value.passport_etag ≡ after.processes.etag
  IsNext (some before) after =
      IsSnapshot before
      × IsSnapshot after
      × IsMatched before
      × IsMatched after
      × IsTagged before after
      × IsUnique (map info_key before.processes.value)

  abbrev pub IsPublished : Option Snapshot → List (Snapshot × Sample S) → Type 0
  IsPublished last [] = Unit
  IsPublished last (p ∷ ps) = IsNext last p.0 × IsPublished (some p.0) ps

  lists_heard :
      (last : Option Snapshot) (after : Snapshot)
      → IsNext last after
      → Decode.Updates.lists last
          (Encode.Updates.update blank_info blank_state after (changes last after) last)
        ≡ decoded (some (after, changes last after))
  lists_heard none after h = first_update blank_info blank_state after h
  lists_heard (some before) after (hb, ha, mb, ma, tagged, unique) =
      update_heard blank_info blank_state before after hb ha mb ma tagged unique

  one_heard :
      (last : Option Snapshot) (p : Snapshot × Sample S)
      → IsNext last p.0
      → decode_update (record { spec = spec; snapshot = last }) (encode_update (next last p) last)
        ≡ decoded (
          some (record {
            snapshot = p.0;
            sample = received spec (project spec p.1);
            changes = changes last p.0;
          }),
          record { spec = spec; snapshot = some p.0 },
        )
  unfolding decode_update take_update encode_update next
  one_heard last p h = rw (lists_heard last p.0 h, sample_sent spec p.1)

  -- While the agent pushes what is published to a listener that holds what it was told last, every
  -- update arrives with the snapshot published, the sample projected to what the listener asked for
  -- as it is received, and what moved since the update before, and the listener ends with the last
  -- snapshot, where every snapshot may follow the one before: both ordered by pid with a state for
  -- each process, states that name the passports they are of, lists with equal tags equal, and no
  -- two processes of the earlier with the same sequence number; of a first snapshot, only that its
  -- states name the passports.
  pub push-told :
      (last : Option Snapshot) (ps : List (Snapshot × Sample S))
      → IsPublished last ps
      → push last last (record { spec = spec; snapshot = last }) ps
        ≡ (told last ps, record { spec = spec; snapshot = latest_of last ps })
  unfolding push next
  push-told last [] h = refl
  push-told last (p ∷ ps) h =
      rw (push, one_heard last p h.0) (rw (push-told (some p.0) ps h.1) refl)
