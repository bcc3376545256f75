-- ===== src/Bsfs/Exchange.antt =====
-- `do_exchange` and `do_unlink_metadata` of src/bsfs.c.
use bsfs.Base.{ℕ, ◌*◌, ◌≡◌, ◌≢◌, refl, sym, ap, subst, ◌∙◌, false, Bytes, IsBytes, none, ok}
use bsfs.Bft.{BftEntry, bft_entry_size, bft_read_table_entry, bft_write_table_entry}
use bsfs.Bft.Entries.{bft_remove_table_entry_lem}
use bsfs.Bsfs.Attributes.{IsUpdate, readable, write-IsUpdate}
use bsfs.Bsfs.Metadata.{do_exchange, do_unlink_metadata, second_write}
use bsfs.Oft.{Oft, bs_oft_has}
use bsfs.Stego.{Host}

-- An entry is written under the name of another that can be read.
renamed-IsUpdate :
    (host : Host) (old bft : Bytes) (i j : ℕ) (ent other : BftEntry)
    → IsBytes old
    → bft_read_table_entry host old i ≡ ok ent
    → bft_read_table_entry host old j ≡ ok other
    → IsUpdate host bft i
        (record ent { name = other.name })
        (bft_write_table_entry bft (record ent { name = other.name }) i)
renamed-IsUpdate host old bft i j ent other h e e' =
    let r = readable host old i ent h e in
    let r' = readable host old j other h e' in
    let new = record ent { name = other.name } in
    subst (λ x. IsUpdate host bft i x (bft_write_table_entry bft new i))
      (ap (λ (x : BftEntry). record x { name = other.name }) r.fits)
      (write-IsUpdate host bft i new r.within r'.is_name r'.memory)

-- do_exchange of two readable entries of a table of bytes succeeds, swaps their names and changes
-- neither their other fields nor what is read of any other entry.
pub do_exchange_lem :
    (host : Host) (bft : Bytes) (src dest : ℕ) (src_entry dest_entry : BftEntry)
    → IsBytes bft
    → src ≢ dest
    → bft_read_table_entry host bft src ≡ ok src_entry
    → bft_read_table_entry host bft dest ≡ ok dest_entry
    → (b : Bytes) × (do_exchange host bft src dest ≡ (b, none))
      × (bft_read_table_entry host b src ≡ ok (record src_entry { name = dest_entry.name }))
      × (bft_read_table_entry host b dest ≡ ok (record dest_entry { name = src_entry.name }))
      × ((j : ℕ)
          → src ≢ j
          → dest ≢ j
          → bft_read_table_entry host b j ≡ bft_read_table_entry host bft j)
unfolding do_exchange second_write
do_exchange_lem host bft src dest src_entry dest_entry h ne e₁ e₂ =
    let (b₁, w₁, r₁, o₁) = renamed-IsUpdate host bft bft src dest src_entry dest_entry h e₁ e₂ in
    let (b₂, w₂, r₂, o₂) = renamed-IsUpdate host bft b₁ dest src dest_entry src_entry h e₂ e₁ in
    (
      b₂,
      rw (do_exchange, e₁, e₂, w₁, second_write, w₂) refl,
      o₂ src (λ same. ne (sym same)) ∙ r₁,
      r₂,
      λ j ne₁ ne₂. o₂ j ne₂ ∙ o₁ j ne₁,
    )

-- A file that is not open is taken out of the table, and its first cluster is handed on.
pub do_unlink_metadata_lem :
    (host : Host) (bft : Bytes) (index : ℕ) (open_files : Oft) (ent : BftEntry)
    → IsBytes bft
    → bs_oft_has open_files index ≡ false
    → bft_read_table_entry host bft index ≡ ok ent
    → (b : Bytes) × (do_unlink_metadata host bft index open_files ≡ ok (b, ent.initial_cluster))
      × (b (index * bft_entry_size) ≡ 0)
      × ((j : ℕ)
          → index ≢ j
          → (bft_read_table_entry host b j ≡ bft_read_table_entry host bft j)
            × (b (j * bft_entry_size) ≡ bft (j * bft_entry_size)))
unfolding do_unlink_metadata
do_unlink_metadata_lem host bft index open_files ent h closed e =
    let r = readable host bft index ent h e in
    let (b, removed, free, others) = bft_remove_table_entry_lem host bft index r.within in
    (b, rw (closed, e, removed) refl, free, others)
