-- ===== src/OutboundStore/Refinement.antt =====
-- src/core/file-outbound-attribution-store.js: the files implement the table of the texts sent.
use whatsapp_ai_supervisor.Common.{All, List, Option, String, [], filter, ok, refl, ℕ, ◌∷◌, ◌≡◌}
use whatsapp_ai_supervisor.OutboundStore.{Files, entries_of, first, read_ledger}
use whatsapp_ai_supervisor.OutboundStore.Table.{
  Operation, Table, apply_all, empty, perform, perform_all,
}
use whatsapp_ai_supervisor.OutboundStore.Writes.{Represents}
use whatsapp_ai_supervisor.OutboundStore.Steps.{IsPermitted, apply-Represents}

module _ (base64url : String → String) (parse : String → Option ℕ)
    (to_iso : ℕ → Option String) where
  apply_all-Represents :
      (files : Files) (table : Table) (operations : List Operation)
      → Represents base64url parse to_iso files table
      → All (IsPermitted base64url parse to_iso) operations
      → (after : Files) × (apply_all base64url parse to_iso files operations
          ≡ ok (after, (perform_all table operations).1))
  apply_all-Represents files table [] rep permitted = (files, refl)
  apply_all-Represents files table (operation ∷ operations) rep (one, permitted) =
      let (middle, first_step, rep_middle) =
        apply-Represents base64url parse to_iso files table operation rep one in
      let (after, later) =
        apply_all-Represents middle (perform table operation).0 operations rep_middle permitted in
      (after, rw (first_step, later) refl)

  -- From no files, any sequence of records, echoes and lookups is served without an error, and each
  -- answer is the one that a table gives in which the first record of a text stays and its echo is
  -- noted once, with the first instant: where the three ids of a call are trimmed and not empty, the
  -- attributions recorded pass their check and the instants given are ones that `Date` reads. The
  -- tenants may have ids whose old and new file names are the same.
  pub apply_all-Refines :
      (operations : List Operation)
      → All (IsPermitted base64url parse to_iso) operations
      → (after : Files) × (apply_all base64url parse to_iso (λ file. []) operations
          ≡ ok (after, (perform_all empty operations).1))
  unfolding entries_of read_ledger filter first
  apply_all-Refines operations permitted =
      apply_all-Represents (λ file. []) empty operations
        (((λ file. tt), (λ t s m e. refl)), (λ t s m. refl)) permitted
