-- ===== src/Tests/Memory.antt =====
-- A household's working memory with an entry of each member.
use plus_one.Common.{ℕ, String, [], ◌∷◌, none, some, ◌≡◌, refl, true, not}
use plus_one.Memory.{Entry, Document, Kind, member, Mutation, replace, succeeded, Draft, replacing}
use plus_one.Memory.Document.{
  apply_mutation, effect_is_present, verify_readback, Resolution, resolve_mutation,
}
use plus_one.Memory.Access.{SameForOthers, apply_mutation-others}
use plus_one.Memory.Readback.{apply_mutation-verified}
use plus_one.Memory.Resolved.{IsApplied, resolve_mutation-IsApplied}

abbrev entry_of : String → String → Entry
entry_of owner value = record {
  kind = Kind.member_context;
  summary = "tone";
  scope = member;
  owner = some owner;
  value = value;
  lifecycle = none;
}

abbrev sample_memory : Document
sample_memory = ("wme_1", entry_of "ann" "brief") ∷ ("wme_2", entry_of "ben" "long") ∷ []

abbrev no_size : Document → ℕ
no_size d = 0

abbrev sample_revision : Document → String
sample_revision d = "r1"

abbrev sample_mutation : Mutation
sample_mutation = replace "wme_1" (entry_of "ann" "warm")

abbrev memory_after : Document
memory_after =
    (
      "wme_1",
      record (entry_of "ann" "warm") {
        lifecycle =
            some (record {
              created_at = 7;
              updated_at = 7;
              last_reviewed_at = none;
              expires_at = none;
            });
      },
    )
    ∷ ("wme_2", entry_of "ben" "long")
    ∷ []

replaced : apply_mutation no_size sample_mutation sample_memory "ann" 7 ≡ succeeded memory_after
unfolding apply_mutation
replaced = refl

apply_mutation-others_example : SameForOthers "ann" sample_memory memory_after
apply_mutation-others_example =
    apply_mutation-others no_size sample_memory memory_after "ann" 7 sample_mutation refl replaced

apply_mutation-verified_example :
    (effect_is_present memory_after sample_mutation ≡ true)
    × (verify_readback sample_memory memory_after sample_mutation
        ≡ not (effect_is_present sample_memory sample_mutation))
apply_mutation-verified_example =
    apply_mutation-verified no_size sample_memory memory_after "ann" 7 sample_mutation replaced

abbrev sample_draft : Draft
sample_draft = replacing "wme_1" Kind.member_context "tone" "warm"

abbrev sample_resolution : Resolution
sample_resolution = record { mutation = sample_mutation; requires_confirmation = true }

drafted :
    resolve_mutation sample_revision "wme_3" "r1" sample_draft sample_memory "ann"
    ≡ succeeded sample_resolution
unfolding resolve_mutation
drafted = refl

resolve_mutation-IsApplied_example :
    IsApplied (apply_mutation no_size sample_mutation sample_memory "ann" 7)
resolve_mutation-IsApplied_example =
    resolve_mutation-IsApplied no_size sample_memory "ann" 7 sample_revision "wme_3" "r1"
      sample_draft sample_resolution refl drafted
