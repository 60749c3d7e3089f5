-- ===== src/Wire/RoundTrip/ListForms.antt =====
-- src/wire/encode.rs and src/wire/decode.rs: one list of a watch update, from the agent to the listener.
use uniproc_windows_agent.Base.{
  ℕ, negb, List, [], map, none, some, ◌==◌, Beq, nat_beq, ◌≡◌, refl, sym, ap, ◌∙◌, Bool-cases, inl,
  inr,
}
use uniproc_windows_agent.Api.{ServiceStats, Snapshot, Tagged}
use uniproc_windows_agent.Watch.Diff.{
  IsOrdered, diff_exact, diff_same, new_or_changed, no_longer_there,
}
use uniproc_windows_agent.Wire.Outcome.{Decoded, decoded, each_sent}
use uniproc_windows_agent.Wire.Encode.Updates.{list_form, sequence_numbers, services_form, upserts}
use uniproc_windows_agent.Wire.Decode.Updates.{based, delta_rows, held, list_rows, services_list}
use uniproc_windows_agent.Wire.Encode
use uniproc_windows_agent.Wire.Decode
use uniproc_windows_agent.Wire.RoundTrip.Lists.{service_stats_sent}
use uniproc_windows_agent.Wire.RoundTrip.Delta.{
  LeftSays, left_heard, news, news_keys, upserts_found,
}
use uniproc_windows_agent.Wire.RoundTrip.Merged.{delta_merged}

module _ {T M : Type 0} ⦃e : Beq T⦄ (blank : M) (send : T → M) (read : List M → Decoded (List T))
    (key : T → ℕ × ℕ) (read_sent : (xs : List T) → read (map send xs) ≡ decoded xs) where
  same_heard :
      (xs : List T)
      → IsOrdered key xs
      → ((new_or_changed key xs xs ≡ []) × (no_longer_there key xs xs ≡ []))
  same_heard xs h =
      let exact = diff_exact key xs xs h h in
      (
        sym exact.0 ∙ ap (λ d. d.0) (diff_same key xs),
        sym exact.1 ∙ ap (λ d. d.1) (diff_same key xs),
      )

  pub first_heard :
      (list : Snapshot → Tagged (List T)) (after_etag : ℕ) (after : List T) (left up : List (ℕ × ℕ))
      → list_rows read key none list (list_form blank send key none after_etag after left up)
        ≡ decoded (record { value = after; upserted = map key after; left = [] })
  unfolding list_rows list_form
  first_heard list after_etag after left up = rw (read_sent after)

  delta_heard :
      (held : Tagged (List T)) (after : List T) (left : List (ℕ × ℕ))
      → IsOrdered key held.value
      → IsOrdered key after
      → LeftSays (sequence_numbers left) (map key held.value) (map key after)
      → delta_rows read key held (record {
        base_etag = held.etag;
        left = some (sequence_numbers left);
        upserted = some (upserts blank send key after (new_or_changed key held.value after));
      })
        ≡ decoded (record {
          value = after;
          upserted = new_or_changed key held.value after;
          left = no_longer_there key held.value after;
        })
  unfolding delta_rows based
  delta_heard held after left hb ha says = rw (
    (nat_beq.beq_iff held.etag held.etag).1 refl,
    upserts_found key blank send held.value after ha,
    read_sent (news key held.value after),
    delta_merged key (sequence_numbers left) held.value after hb ha says,
    news_keys key held.value after,
    left_heard key (sequence_numbers left) held.value after says,
  )

  pub list_heard :
      (before : Snapshot) (list : Snapshot → Tagged (List T)) (after : Tagged (List T))
      (left : List (ℕ × ℕ))
      → IsOrdered key (list before).value
      → IsOrdered key after.value
      → ((list before).etag ≡ after.etag → (list before).value ≡ after.value)
      → LeftSays (sequence_numbers left) (map key (list before).value) (map key after.value)
      → list_rows read key (some before) list (
          list_form blank send key
            (some (list before).etag)
            after.etag
            after.value
            left
            (new_or_changed key (list before).value after.value))
        ≡ decoded (record {
          value = after.value;
          upserted = new_or_changed key (list before).value after.value;
          left = no_longer_there key (list before).value after.value;
        })
  unfolding list_rows list_form held
  list_heard before list after left hb ha tagged says =
      elim (Bool-cases ((list before).etag == after.etag)) [
        | inl t ↦
            let same = tagged ((nat_beq.beq_iff (list before).etag after.etag).0 t) in
            rw t
              (rw same (rw (same_heard after.value ha).0 (rw (same_heard after.value ha).1 refl)))
        | inr t ↦ rw t (delta_heard (list before) after.value left hb ha says)
      ]

pub services_heard :
    (before : Snapshot) (after : Tagged (List ServiceStats))
    → (before.services.etag ≡ after.etag → before.services.value ≡ after.value)
    → services_list (some before) (services_form (some before.services.etag) after)
      ≡ decoded (after.value, negb (before.services.etag == after.etag))
unfolding services_list services_form held
services_heard before after tagged = elim (Bool-cases (before.services.etag == after.etag)) [
  | inl t ↦ rw t (rw (tagged ((nat_beq.beq_iff before.services.etag after.etag).0 t)) refl)
  | inr t ↦ rw t (
      rw
        (each_sent Decode.Lists.service_stats Encode.Lists.service_stats service_stats_sent
          after.value)
        refl)
]
