-- ===== src/Notes/Tests.antt =====
-- Notes of a small state.
use schematica_api.Common.{◌≡◌, refl, [], ◌∷◌, Integer, parse_int}
use schematica_api.Database.{memory_client, memory_client-IsPrisma}
use schematica_api.Entities.{Note}
use schematica_api.Events.{Done, note_updated}
use schematica_api.Exceptions.{ok}
use schematica_api.Notes.{has_note_id, edited, write_note, update, remove}
use schematica_api.Notes.Authors.{IsNamed, update_by_author}
use schematica_api.Prisma.{replace_first}
use schematica_api.Samples.{alice, db}

abbrev changed : Note
changed = record { id = 1; content = "bye"; endpoint_id = "e1"; author_id = "u1" }

abbrev changed_done : Done Note
changed_done = record {
  db = record db { notes = changed ∷ [] };
  events = note_updated alice changed "p1" "e1" ∷ [];
  value = changed;
}

change : update memory_client db "1" "bye" alice ≡ ok changed_done
unfolding update write_note parse_int
change = refl

update_by_author_example :
    (i : Integer) × (n : Note) × IsNamed db "1" i n
    × (n.author_id ≡ "u1")
    × ((changed_done.db).notes ≡ replace_first (has_note_id i) (edited "bye" n) db.notes)
update_by_author_example =
    update_by_author memory_client memory_client-IsPrisma db "1" "bye" alice changed_done change

abbrev removed_done : Done (Unit {0})
removed_done = record { db = record db { notes = [] }; events = []; value = tt }

removal : remove memory_client db "1" alice ≡ ok removed_done
unfolding remove parse_int
removal = refl
