-- ===== src/Runtime.antt =====
-- backend/src/extrio/runtime.py and coverage.py: the traversal of the list pages of a source, from the
-- page where it starts to the records whose details are fetched. Dates are numbers. A `Site` stands for the
-- network and for what the HTML libraries read on a page.
mod Records
mod Traverse
mod Bounded
mod Limits
mod Anchors
mod Orders
mod Seeking
mod Resumes
mod Examples
