-- ===== src/Utils/Calendar/Tests.antt =====
-- Times of a day.
