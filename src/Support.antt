-- ===== src/Support.antt =====
-- phase3/support.c: the pool of support structures.
pub mod Pool
use project.Common.{ℕ, zero, suc, ◌+◌, ◌*◌, update, if◌then◌else◌}
use project.Listx.{null, container_of, list_add, list_del, list_empty}
use project.Types.{PteEntry, uproc_max, max_pages, offset_s_list, sizeof_support, s_list}
use project.Types.Machine.{Cmd, pure, ◌>>=◌, ◌>>◌, gets, modify, on_links, critical}

unfoldable pub free_support : ℕ → Cmd (Unit {0})
free_support p =
    critical
      (do free_h ← gets (λ s. s.support_free_h); on_links (λ m. list_add m (s_list p) free_h))

-- `for (i = 0; i < MAXPAGES; i++) s->sup_privatePgTbl[i].pte_entryHI = 0`, by the rounds left.
unfoldable pub clear_pages : (rounds i : ℕ) → (ℕ → PteEntry) → ℕ → PteEntry
clear_pages zero i tbl = tbl
clear_pages (suc n) i tbl =
    clear_pages n (i + 1) (update tbl i (record (tbl i) { pte_entry_hi = 0 }))

unfoldable pub alloc_support : Cmd ℕ
unfolding clear_pages
alloc_support = critical (do
  free_h ← gets (λ s. s.support_free_h)
  is_empty ← gets (λ s. list_empty s.links free_h)
  if is_empty then pure null else do
    p ← gets (λ s. container_of (s.links.next free_h) offset_s_list)
    on_links (λ m. list_del m (s_list p))
    modify (λ s. record s {
      support = update s.support p (record (s.support p) {
        sup_private_pg_tbl = clear_pages max_pages 0 (s.support p).sup_private_pg_tbl;
      });
    })
    pure p)

-- `for (i = 0; i < UPROCMAX; i++)`, by the rounds left.
unfoldable pub init_supports_from : (rounds i : ℕ) → Cmd (Unit {0})
init_supports_from zero i = pure tt
init_supports_from (suc n) i = do
  table ← gets (λ s. s.support_table)
  free_h ← gets (λ s. s.support_free_h)
  on_links (λ m. list_add m (s_list (table + i * sizeof_support)) free_h)
  init_supports_from n (i + 1)

unfoldable pub init_supports : Cmd (Unit {0})
unfolding init_supports_from
init_supports = critical (init_supports_from uproc_max 0)
