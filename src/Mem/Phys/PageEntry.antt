-- ===== src/Mem/Phys/PageEntry.antt =====
-- kernel/src/mem/phys.rs: the database entry of one frame. Each operation is one step; a failed
-- assertion is none.
use roanix.Prelude.{
  ℕ, ◌+◌, ◌-◌, ◌%◌, ◌^◌, Bool, true, false, not, ◌&&◌, ◌||◌, Option, none, some, ◌==◌,
  if◌then◌else◌,
}

pub data PageState : Type 0 where
  reserved free zeroed allocated : PageState

pub data PageUse : Type 0 where
  unused managed kernel_heap page_table pfn_database unavailable : PageUse

pub data PageOwnerKind : Type 0 where
  unowned anonymous file_backed kernel : PageOwnerKind

pub record PageFlags : Type 0 where
  pub dirty : Bool
  pub referenced : Bool
  pub busy : Bool
  pub wanted : Bool
  pub tabled : Bool
  pub anon : Bool
  pub file : Bool
  pub executable : Bool
  pub dirty_unknown : Bool

abbrev pub no_flags : PageFlags
no_flags = record {
  dirty = false;
  referenced = false;
  busy = false;
  wanted = false;
  tabled = false;
  anon = false;
  file = false;
  executable = false;
  dirty_unknown = false;
}

pub record Page : Type 0 where
  pub state : PageState
  pub usage : PageUse
  pub owner_kind : PageOwnerKind
  pub flags : PageFlags
  pub wire_count : ℕ
  pub loan_count : ℕ
  pub map_count : ℕ

abbrev pub is_free : PageState → Bool
is_free free = true
is_free zeroed = true
is_free reserved = false
is_free allocated = false

abbrev pub is_allocated : PageState → Bool
is_allocated allocated = true
is_allocated free = false
is_allocated zeroed = false
is_allocated reserved = false

abbrev pub is_owned : PageOwnerKind → Bool
is_owned unowned = false
is_owned anonymous = true
is_owned file_backed = true
is_owned kernel = true

abbrev pub is_file : PageOwnerKind → Bool
is_file file_backed = true
is_file unowned = false
is_file anonymous = false
is_file kernel = false

abbrev pub is_anonymous : PageOwnerKind → Bool
is_anonymous anonymous = true
is_anonymous unowned = false
is_anonymous file_backed = false
is_anonymous kernel = false

-- The uses that the allocator gives out.
unfoldable pub is_dynamic : PageUse → Bool
is_dynamic unused = false
is_dynamic unavailable = false
is_dynamic pfn_database = false
is_dynamic managed = true
is_dynamic kernel_heap = true
is_dynamic page_table = true

is_managed : PageUse → Bool
is_managed managed = true
is_managed unused = false
is_managed unavailable = false
is_managed pfn_database = false
is_managed kernel_heap = false
is_managed page_table = false

-- The assertions and the new status of prepare_allocation, but for the free lists.
unfoldable pub allocate : PageUse → Page → Option Page
allocate usage page =
    if is_free page.state
    then some (record {
      state = allocated;
      usage = usage;
      owner_kind = unowned;
      flags = no_flags;
      wire_count = 0;
      loan_count = 0;
      map_count = 0;
    })
    else none

-- The assertions and the new status of prepare_free, but for the free lists.
unfoldable pub release : Bool → Page → Option Page
release zero_filled page =
    if is_allocated page.state
      && not (is_owned page.owner_kind)
      && page.wire_count == 0
      && page.loan_count == 0
      && page.map_count == 0
    then some (record page {
      state = if zero_filled then zeroed else free;
      usage = unused;
      owner_kind = unowned;
      flags = no_flags;
    })
    else none

unfoldable pub bind_owner : PageOwnerKind → Bool → Page → Option Page
unfolding is_managed
bind_owner kind executable page =
    if is_managed page.usage && not (is_owned page.owner_kind)
    then some (record page {
      owner_kind = kind;
      flags = record page.flags {
        tabled = true;
        anon = page.flags.anon || is_anonymous kind;
        file = page.flags.file || is_file kind;
        executable = page.flags.executable || (is_file kind && executable);
      };
    })
    else none

unfoldable pub clear_owner : Page → Page
clear_owner page = record page {
  owner_kind = unowned;
  flags = record page.flags { tabled = false; anon = false; file = false; executable = false };
}

unfoldable pub note_executable : Page → Page
note_executable page =
    if is_file page.owner_kind
    then record page { flags = record page.flags { executable = true } }
    else page

unfoldable pub loan : Page → Page
loan page = record page { loan_count = (page.loan_count + 1) % 2 ^ 32 }

unfoldable pub unloan : Page → Option Page
unloan page =
    if page.loan_count == 0 then none else some (record page { loan_count = page.loan_count - 1 })

unfoldable pub add_mapping : Page → Page
add_mapping page = record page { map_count = (page.map_count + 1) % 2 ^ 32 }

unfoldable pub remove_mapping : Page → Option Page
remove_mapping page =
    if page.map_count == 0 then none else some (record page { map_count = page.map_count - 1 })

unfoldable pub mark_dirty : Page → Page
mark_dirty page = record page { flags = record page.flags { dirty = true; dirty_unknown = false } }

unfoldable pub mark_clean : Page → Page
mark_clean page = record page { flags = record page.flags { dirty = false; dirty_unknown = false } }

unfoldable pub mark_unknown : Page → Page
mark_unknown page =
    if page.flags.dirty
    then page
    else record page { flags = record page.flags { dirty_unknown = true } }

unfoldable pub resolve_unknown : Page → Page
resolve_unknown page = record page { flags = record page.flags { dirty_unknown = false } }

unfoldable pub mark_referenced : Page → Page
mark_referenced page = record page { flags = record page.flags { referenced = true } }

unfoldable pub take_referenced : Page → Page × Bool
take_referenced page =
    (record page { flags = record page.flags { referenced = false } }, page.flags.referenced)

unfoldable pub try_busy : Page → Page × Bool
try_busy page =
    if page.flags.busy
    then (record page { flags = record page.flags { wanted = true } }, false)
    else (record page { flags = record page.flags { busy = true } }, true)

unfoldable pub unbusy : Page → Page × PageFlags
unbusy page =
    (record page { flags = record page.flags { busy = false; wanted = false } }, page.flags)

unfoldable pub reclaimable : Page → Bool
reclaimable page =
    page.wire_count == 0 && page.loan_count == 0 && page.map_count == 0 && not page.flags.busy
