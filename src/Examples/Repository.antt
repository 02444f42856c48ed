-- ===== src/Examples/Repository.antt =====
-- The repository's migrations (migrations/), as they are read for a new resource.
use go_api_scaffolding.Common.{
  ◌≡◌, refl, true, false, Bytes, String, codes, List, [], ◌∷◌, Option, none, some, same, lower,
  has_prefix, has_suffix, before,
}
use go_api_scaffolding.Errors.{ok, err}
use go_api_scaffolding.Forge.Tokens.{
  sql_tokens, tokens_within, next_token, while_char, past_line, past_comment, quoted, past_first,
  past_dollar,
}
use go_api_scaffolding.Forge.Migrations.{
  Entry, sorts_before, up_part, goose_down, past_space, ends_line, already_exists,
  validate_resource_table,
}
use go_api_scaffolding.Forge.Laws.Catalog.{
  Catalog, Ddl, create_table, create_index, drop_index, alter_table, rename_index,
}
use go_api_scaffolding.Forge.Laws.Following.{execute_all, empty}

abbrev migration : String → Bytes → Entry
migration name text = record { name = codes name; is_dir = false; content = ok text }

abbrev or_empty : Option Catalog → Catalog
or_empty none = empty
or_empty (some c) = c

abbrev after : List Ddl → Catalog → Catalog
after ss c = or_empty (execute_all ss c)

abbrev text_1 : Bytes
text_1 =
    codes
      "-- +goose Up\n-- +goose StatementBegin\nCREATE TABLE widgets (\n    id          UUID        PRIMARY KEY DEFAULT gen_random_uuid(),\n    name        TEXT        NOT NULL,\n    description TEXT        NOT NULL DEFAULT '',\n    status      TEXT        NOT NULL DEFAULT 'active',\n    created_at  TIMESTAMPTZ NOT NULL DEFAULT now(),\n    updated_at  TIMESTAMPTZ NOT NULL DEFAULT now()\n);\n\nCREATE INDEX widgets_created_at_idx ON widgets (created_at DESC);\n-- +goose StatementEnd\n\n-- +goose Down\n-- +goose StatementBegin\nDROP TABLE widgets;\n-- +goose StatementEnd\n"

abbrev up_1 : List Ddl
up_1 =
    create_table false (codes "widgets") (
      sql_tokens (
        codes
          "\n    id          UUID        PRIMARY KEY DEFAULT gen_random_uuid(),\n    name        TEXT        NOT NULL,\n    description TEXT        NOT NULL DEFAULT '',\n    status      TEXT        NOT NULL DEFAULT 'active',\n    created_at  TIMESTAMPTZ NOT NULL DEFAULT now(),\n    updated_at  TIMESTAMPTZ NOT NULL DEFAULT now()\n)"))
    ∷ create_index false false false (codes "widgets_created_at_idx") (codes "widgets")
        (sql_tokens (codes "created_at DESC)"))
    ∷ []

abbrev text_2 : Bytes
text_2 =
    codes
      "-- +goose Up\n-- +goose StatementBegin\n-- Transactional outbox: events are written in the same transaction as the\n-- state change that produced them, then relayed by a separate poller. The\n-- partial index keeps the poller's \"unpublished\" scan cheap as the table grows.\nCREATE TABLE outbox_messages (\n    id           BIGINT      GENERATED ALWAYS AS IDENTITY PRIMARY KEY,\n    aggregate_id UUID        NOT NULL,\n    event_type   TEXT        NOT NULL,\n    payload      JSONB       NOT NULL,\n    created_at   TIMESTAMPTZ NOT NULL DEFAULT now(),\n    published_at TIMESTAMPTZ\n);\n\nCREATE INDEX outbox_unpublished_idx ON outbox_messages (id) WHERE published_at IS NULL;\n-- +goose StatementEnd\n\n-- +goose Down\n-- +goose StatementBegin\nDROP TABLE outbox_messages;\n-- +goose StatementEnd\n"

abbrev up_2 : List Ddl
up_2 =
    create_table false (codes "outbox_messages") (
      sql_tokens (
        codes
          "\n    id           BIGINT      GENERATED ALWAYS AS IDENTITY PRIMARY KEY,\n    aggregate_id UUID        NOT NULL,\n    event_type   TEXT        NOT NULL,\n    payload      JSONB       NOT NULL,\n    created_at   TIMESTAMPTZ NOT NULL DEFAULT now(),\n    published_at TIMESTAMPTZ\n)"))
    ∷ create_index false false false (codes "outbox_unpublished_idx") (codes "outbox_messages")
        (sql_tokens (codes "id) WHERE published_at IS NULL"))
    ∷ []

abbrev text_3 : Bytes
text_3 =
    codes
      "-- +goose Up\n-- +goose StatementBegin\n-- Idempotency keys let clients safely retry unsafe requests (POST) without\n-- creating duplicates. The stored response is replayed for a repeated key.\nCREATE TABLE idempotency_keys (\n    key             TEXT        PRIMARY KEY,\n    request_hash    TEXT        NOT NULL,\n    response_status INT         NOT NULL,\n    response_body   BYTEA       NOT NULL,\n    created_at      TIMESTAMPTZ NOT NULL DEFAULT now(),\n    expires_at      TIMESTAMPTZ NOT NULL\n);\n\nCREATE INDEX idempotency_keys_expires_at_idx ON idempotency_keys (expires_at);\n-- +goose StatementEnd\n\n-- +goose Down\n-- +goose StatementBegin\nDROP TABLE idempotency_keys;\n-- +goose StatementEnd\n"

abbrev up_3 : List Ddl
up_3 =
    create_table false (codes "idempotency_keys") (
      sql_tokens (
        codes
          "\n    key             TEXT        PRIMARY KEY,\n    request_hash    TEXT        NOT NULL,\n    response_status INT         NOT NULL,\n    response_body   BYTEA       NOT NULL,\n    created_at      TIMESTAMPTZ NOT NULL DEFAULT now(),\n    expires_at      TIMESTAMPTZ NOT NULL\n)"))
    ∷ create_index false false false (codes "idempotency_keys_expires_at_idx")
        (codes "idempotency_keys") (sql_tokens (codes "expires_at)"))
    ∷ []

abbrev text_4 : Bytes
text_4 =
    codes
      "-- +goose Up\n-- +goose StatementBegin\n-- A message the publisher rejects records the attempt and error and backs off\n-- until next_attempt_at, so it never blocks the messages behind it. The\n-- defaults are non-volatile, so adding the columns does not rewrite the table.\nALTER TABLE outbox_messages\n    ADD COLUMN attempts        INTEGER     NOT NULL DEFAULT 0,\n    ADD COLUMN last_error      TEXT,\n    ADD COLUMN next_attempt_at TIMESTAMPTZ NOT NULL DEFAULT now();\n-- +goose StatementEnd\n\n-- +goose Down\n-- +goose StatementBegin\nALTER TABLE outbox_messages\n    DROP COLUMN next_attempt_at,\n    DROP COLUMN last_error,\n    DROP COLUMN attempts;\n-- +goose StatementEnd\n"

abbrev up_4 : List Ddl
up_4 =
    alter_table (codes "outbox_messages") (codes "add") (
      sql_tokens (
        codes
          "COLUMN attempts        INTEGER     NOT NULL DEFAULT 0,\n    ADD COLUMN last_error      TEXT,\n    ADD COLUMN next_attempt_at TIMESTAMPTZ NOT NULL DEFAULT now()"))
    ∷ []

abbrev text_5 : Bytes
text_5 =
    codes
      "-- +goose NO TRANSACTION\n-- Matches the list order (newest first, id as the tie-breaker), so a page is\n-- read from the index instead of sorting the whole table. widgets already\n-- holds data on an upgrade, so the replacement index is built CONCURRENTLY\n-- next to the old one and swapped in by name; reads and writes keep flowing.\n-- Each statement is idempotent, so a run that failed half-way (which can leave\n-- an INVALID widgets_created_at_new_idx behind) can simply be re-run.\n\n-- +goose Up\nDROP INDEX CONCURRENTLY IF EXISTS widgets_created_at_new_idx;\nCREATE INDEX CONCURRENTLY widgets_created_at_new_idx ON widgets (created_at DESC, id DESC);\nDROP INDEX CONCURRENTLY IF EXISTS widgets_created_at_idx;\nALTER INDEX widgets_created_at_new_idx RENAME TO widgets_created_at_idx;\n\n-- +goose Down\nDROP INDEX CONCURRENTLY IF EXISTS widgets_created_at_new_idx;\nCREATE INDEX CONCURRENTLY widgets_created_at_new_idx ON widgets (created_at DESC);\nDROP INDEX CONCURRENTLY IF EXISTS widgets_created_at_idx;\nALTER INDEX widgets_created_at_new_idx RENAME TO widgets_created_at_idx;\n"

abbrev up_5 : List Ddl
up_5 =
    drop_index true true (codes "widgets_created_at_new_idx")
    ∷ create_index false true false (codes "widgets_created_at_new_idx") (codes "widgets")
        (sql_tokens (codes "created_at DESC, id DESC)"))
    ∷ drop_index true true (codes "widgets_created_at_idx")
    ∷ rename_index (codes "widgets_created_at_new_idx") (codes "widgets_created_at_idx")
    ∷ []

abbrev text_6 : Bytes
text_6 =
    codes
      "-- +goose NO TRANSACTION\n-- +goose Up\n-- The partial index keeps the retention purge's \"published before\" scan cheap.\n-- It is built concurrently so outbox inserts, and with them every write that\n-- enqueues an event, keep running on a table that already holds rows. A\n-- concurrent build that fails leaves an invalid index behind, so it is dropped\n-- before the retry builds it again.\nDROP INDEX CONCURRENTLY IF EXISTS outbox_published_at_idx;\nCREATE INDEX CONCURRENTLY outbox_published_at_idx ON outbox_messages (published_at) WHERE published_at IS NOT NULL;\n\n-- +goose Down\nDROP INDEX CONCURRENTLY IF EXISTS outbox_published_at_idx;\n"

abbrev up_6 : List Ddl
up_6 =
    drop_index true true (codes "outbox_published_at_idx")
    ∷ create_index false true false (codes "outbox_published_at_idx") (codes "outbox_messages")
        (sql_tokens (codes "published_at) WHERE published_at IS NOT NULL"))
    ∷ []

abbrev migrations : List Entry
migrations =
    migration "00001_widgets.sql" text_1
    ∷ migration "00002_outbox.sql" text_2
    ∷ migration "00003_idempotency.sql" text_3
    ∷ migration "00004_outbox_retry.sql" text_4
    ∷ migration "00005_widgets_list_index.sql" text_5
    ∷ migration "00006_outbox_published_at_idx.sql" text_6
    ∷ []

-- The catalog that they leave.
abbrev final : Catalog
final = after up_6 (after up_5 (after up_4 (after up_3 (after up_2 (after up_1 (empty))))))

-- A resource of gadgets is accepted, and one of widgets is refused.
adds_gadgets : validate_resource_table (codes "gadgets") (ok migrations) ≡ ok tt
unfolding validate_resource_table sql_tokens tokens_within next_token while_char past_line
    past_comment quoted past_first past_dollar lower up_part goose_down past_space ends_line same
    has_suffix has_prefix sorts_before before
adds_gadgets = refl

refuses_widgets :
    validate_resource_table (codes "widgets") (ok migrations)
    ≡ err (already_exists (codes "widgets"))
unfolding validate_resource_table sql_tokens tokens_within next_token while_char past_line
    past_comment quoted past_first past_dollar lower up_part goose_down past_space ends_line same
    has_suffix has_prefix sorts_before before
refuses_widgets = refl
