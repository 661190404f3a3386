-- ===== src/Brk/PageFunction.antt =====
-- An instance of the page table's interface: a function from pages to frames.
use rockos.Prelude.{ℕ, ◌≡◌, ◌≢◌, true, Option, none, some, arith, ◌==◌, if◌then◌else◌}
use rockos.Brk.{Mapper}

abbrev pub Pages : Type 0
Pages = ℕ → Option ℕ

abbrev pub with_page : Pages → ℕ → Option ℕ → Pages
with_page t page frame other = if other == page then frame else t other

pub with_page_self : (t : Pages) (page : ℕ) (frame : Option ℕ) → with_page t page frame page ≡ frame
with_page_self t page frame = ground arith

pub with_page_other :
    (t : Pages) (page other : ℕ) (frame : Option ℕ)
    → other ≢ page
    → with_page t page frame other ≡ t other
with_page_other t page other frame ne = ground arith

abbrev pub page_function : Mapper Pages
page_function = record {
  translate = λ t page. t page;
  map_to = λ t page frame flags fa. (true, (with_page t page (some frame), fa));
  unmap = λ t page. (t page, with_page t page none);
  map_to_ok = λ t page frame flags fa ok. with_page_self t page (some frame);
  map_to_other = λ t page frame flags fa other ne. with_page_other t page other (some frame) ne;
  unmap_other = λ t page other ne. with_page_other t page other none ne;
}
